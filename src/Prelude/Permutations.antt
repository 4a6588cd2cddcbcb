-- ===== src/Prelude/Permutations.antt =====
-- What holds of a list's members holds in every order of them.
use mathlib.Core.List.{List, Memᴰ, Permᴰ}
use mathlib.Core.Path.{◌∙◌, subst}
use gateway_service.Prelude.Lists.{All}

pub All-Permᴰ : {A : Type 0} (P : A → Type 0) {xs ys : List A} → Permᴰ xs ys → All P xs → All P ys
All-Permᴰ P Permᴰ.nil h = tt
All-Permᴰ P (Permᴰ.cons e d) (h, hs) = (subst P e h, All-Permᴰ P d hs)
All-Permᴰ P (Permᴰ.swap e f) (h, (k, hs)) = (subst P f k, (subst P e h, hs))
All-Permᴰ P (Permᴰ.trans d f) h = All-Permᴰ P f (All-Permᴰ P d h)

pub Memᴰ-Permᴰ : {A : Type 0} (a : A) {xs ys : List A} → Permᴰ xs ys → Memᴰ a xs → Memᴰ a ys
Memᴰ-Permᴰ a Permᴰ.nil m = elim m [ ]
Memᴰ-Permᴰ a (Permᴰ.cons e d) (Memᴰ.head h) = Memᴰ.head (h ∙ e)
Memᴰ-Permᴰ a (Permᴰ.cons e d) (Memᴰ.tail m) = Memᴰ.tail (Memᴰ-Permᴰ a d m)
Memᴰ-Permᴰ a (Permᴰ.swap e f) (Memᴰ.head h) = Memᴰ.tail (Memᴰ.head (h ∙ e))
Memᴰ-Permᴰ a (Permᴰ.swap e f) (Memᴰ.tail (Memᴰ.head h)) = Memᴰ.head (h ∙ f)
Memᴰ-Permᴰ a (Permᴰ.swap e f) (Memᴰ.tail (Memᴰ.tail m)) = Memᴰ.tail (Memᴰ.tail m)
Memᴰ-Permᴰ a (Permᴰ.trans d f) m = Memᴰ-Permᴰ a f (Memᴰ-Permᴰ a d m)
