-- ===== src/Json.antt =====
-- json.Unmarshal and json.Marshal of encoding/json on the Go types that the gateway gives them: a
-- value is read into one that may hold something already, as it does when a key comes twice.
mod Syntax
pub mod Restrict
pub mod Shaped
mod Keys
pub mod Exact
pub mod Samples
pub use Syntax.*
use gateway_service.Prelude.{
  ℕ, zero, suc, ◌+◌, Bool, true, false, not, ◌&&◌, Option, none, some, List, [], ◌∷◌, ◌++◌, ◌==◌,
  if◌then◌else◌, is_empty, any, map, ℤ, pos, ◌>>=◌,
}
use gateway_service.Text.{Str, lit, eqb, upper, has_prefix, parse_int, itoa}

-- What the package does with texts: `parse` reads one, or refuses it; `print` writes a value without
-- white space and with the <, > and & of its literals escaped; `unquote` and `quote` are a literal's
-- string and a string's literal.
pub record Codec : Type 0 where
  pub parse : Str → Option Json
  pub print : Json → Str
  pub unquote : Str → Str
  pub quote : Str → Str

-- What the rune at the start of a text folds to, and the bytes of it that follow: over ASCII a rune
-- folds by case, and U+017F and U+212A fold to S and K.
fold_rune : ℕ → Str → ℕ × ℕ
fold_rune a s =
    if a == 0xc5 && has_prefix s (0xbf ∷ [])
    then (b'S', 1)
    else if a == 0xe2 && has_prefix s (0x84 ∷ 0xaa ∷ [])
    then (b'K', 2)
    else (upper a, 0)

fold_from : ℕ → Str → Str
unfolding fold_rune
fold_from n [] = []
fold_from (suc n) (a ∷ s) = fold_from n s
fold_from zero (a ∷ s) = let (c, n) = fold_rune a s in c ∷ fold_from n s

pub fold_name : Str → Str
unfolding fold_from
fold_name s = fold_from 0 s

-- The declared names, and whether a value is left out under `omitempty`.
abbrev pub names : Fields → List Str
names Fields.end = []
names (Fields.field name omitempty s fs) = name ∷ names fs

pub is_blank : (s : Shape) → Meaning s → Bool
is_blank Shape.string v = is_empty v
is_blank Shape.integer (pos n) = n == 0
is_blank Shape.integer (ℤ.negsuc n) = false
is_blank Shape.boolean v = not v
is_blank Shape.raw none = true
is_blank Shape.raw (some j) = false
is_blank (Shape.pointer s) none = true
is_blank (Shape.pointer s) (some v) = false
is_blank (Shape.slice s) none = true
is_blank (Shape.slice s) (some v) = is_empty v.elements
is_blank (Shape.struct fs) v = false

abbrev pub or_zero : (s : Shape) → Option (Meaning s) → Meaning s
or_zero s none = zero_value s
or_zero s (some v) = v

abbrev pub slots_of : {A : Type 0} → Option (Slots A) → List A
slots_of none = []
slots_of (some v) = v.elements ++ v.spare

-- A reader of one value into a type.
abbrev pub Reader : Type 0
Reader = (s : Shape) → Meaning s → Option (Meaning s)

abbrev pub allocated {ℓ} : {A : Type ℓ} → Option A → Option (Option A)
allocated none = none
allocated (some a) = some (some a)

decode_null : (s : Shape) → Meaning s → Meaning s
decode_null Shape.raw v = some null
decode_null (Shape.pointer s) v = none
decode_null (Shape.slice s) v = none
decode_null Shape.string v = v
decode_null Shape.integer v = v
decode_null Shape.boolean v = v
decode_null (Shape.struct fs) v = v

decode_boolean : Bool → Reader
decode_boolean b Shape.boolean v = some b
decode_boolean b Shape.raw v = some (some (boolean b))
decode_boolean b (Shape.pointer s) v = allocated (decode_boolean b s (or_zero s v))
decode_boolean b _ v = none

decode_number : Str → Reader
decode_number n Shape.integer v = parse_int n
decode_number n Shape.raw v = some (some (number n))
decode_number n (Shape.pointer s) v = allocated (decode_number n s (or_zero s v))
decode_number n _ v = none

-- A slice that no element was read into is made anew.
sliced : {A : Type 0} → Items → Option (Slots A) → Option (Option (Slots A))
sliced nil o = some (some (record { elements = []; spare = [] }))
sliced (cons j js) o = allocated o

decode_array : Items → ((s : Shape) → List (Meaning s) → Option (Slots (Meaning s))) → Reader
unfolding sliced
decode_array js f (Shape.slice s) v = sliced js (f s (slots_of v))
decode_array js f Shape.raw v = some (some (array js))
decode_array js f (Shape.pointer s) v = allocated (decode_array js f s (or_zero s v))
decode_array js f _ v = none

decode_object : Members → ((fs : Fields) → Meanings fs → Option (Meanings fs)) → Reader
decode_object ms f (Shape.struct fs) v = f fs v
decode_object ms f Shape.raw v = some (some (object ms))
decode_object ms f (Shape.pointer s) v = allocated (decode_object ms f s (or_zero s v))
decode_object ms f _ v = none

-- The field that a key is read into, among those whose names pass a test.
update_where : (Str → Bool) → (fs : Fields) → Reader → Meanings fs → Option (Meanings fs)
update_where test Fields.end f v = some v
update_where test (Fields.field name omitempty s fs) f (v, vs) =
    let here = f s v in
    let behind = update_where test fs f vs in
    if test name then (here >>= λ v'. some (v', vs)) else (behind >>= λ vs'. some (v, vs'))

-- The field of this very name, and else one whose name folds to the same.
abbrev field_test : Fields → Str → Str → Bool
field_test fs key name =
    if any (λ n. eqb n key) (names fs) then eqb name key else eqb (fold_name name) (fold_name key)

pub update : (fs : Fields) → Str → Reader → Meanings fs → Option (Meanings fs)
unfolding update_where fold_name
update fs key f v = update_where (field_test fs key) fs f v

first_slot : (s : Shape) → List (Meaning s) → Meaning s
first_slot s [] = zero_value s
first_slot s (v ∷ vs) = v

abbrev later_slots : {A : Type 0} → List A → List A
later_slots [] = []
later_slots (v ∷ vs) = vs

-- `unquote` reads a literal and `quote` writes one.
module _ (unquote : Str → Str) where
  decode_text : Str → Reader
  decode_text t Shape.string v = some (unquote t)
  decode_text t Shape.raw v = some (some (text t))
  decode_text t (Shape.pointer s) v = allocated (decode_text t s (or_zero s v))
  decode_text t _ v = none

  -- json.Unmarshal behind the reading of the text
  mutual
    unfolding decode_null decode_boolean decode_number decode_text decode_array decode_object update
        first_slot

    pub decode : Json → (s : Shape) → Meaning s → Option (Meaning s)
    decode null s v = some (decode_null s v)
    decode (boolean b) s v = decode_boolean b s v
    decode (number n) s v = decode_number n s v
    decode (text t) s v = decode_text t s v
    decode (array js) s v = decode_array js (decode_items js) s v
    decode (object ms) s v = decode_object ms (decode_members ms) s v

    pub decode_items : Items → (s : Shape) → List (Meaning s) → Option (Slots (Meaning s))
    decode_items nil s slots = some (record { elements = []; spare = slots })
    decode_items (cons j js) s slots = decode j s (first_slot s slots) >>= λ v.
        decode_items js s (later_slots slots) >>= λ vs.
        some (record { elements = v ∷ vs.elements; spare = vs.spare })

    pub decode_members : Members → (fs : Fields) → Meanings fs → Option (Meanings fs)
    decode_members close fs v = some v
    decode_members (member key j ms) fs v =
        update fs (unquote key) (decode j) v >>= λ v'. decode_members ms fs v'

pub number_of : ℤ → Str
number_of (pos n) = itoa n
number_of (ℤ.negsuc n) = b'-' ∷ itoa (n + 1)

items_of : List Json → Items
items_of [] = nil
items_of (j ∷ js) = cons j (items_of js)

module _ (quote : Str → Str) where
  -- json.Marshal before the printing
  mutual
    unfolding number_of items_of is_blank

    pub encode : (s : Shape) → Meaning s → Json
    encode Shape.string v = text (quote v)
    encode Shape.integer v = number (number_of v)
    encode Shape.boolean v = boolean v
    encode Shape.raw none = null
    encode Shape.raw (some j) = j
    encode (Shape.pointer s) none = null
    encode (Shape.pointer s) (some v) = encode s v
    encode (Shape.slice s) none = null
    encode (Shape.slice s) (some v) = array (items_of (map (encode s) v.elements))
    encode (Shape.struct fs) v = object (encode_fields fs v)

    encode_fields : (fs : Fields) → Meanings fs → Members
    encode_fields Fields.end v = close
    encode_fields (Fields.field name omitempty s fs) (v, vs) =
        let rest = encode_fields fs vs in
        if omitempty && is_blank s v then rest else member name (encode s v) rest

-- json.Unmarshal into a new value; one that fails leaves nothing that is used.
abbrev pub unmarshal_value : Codec → (s : Shape) → Option Json → Option (Meaning s)
unmarshal_value c s none = none
unmarshal_value c s (some j) = decode c.unquote j s (zero_value s)

unfoldable pub unmarshal : Codec → (s : Shape) → Str → Option (Meaning s)
unmarshal c s body = unmarshal_value c s (c.parse body)

abbrev pub printed : Codec → Option Json → Option Str
printed c none = none
printed c (some j) = some (c.print j)
