-- ===== src/Util.antt =====
-- httpsig/src/util.rs
pub mod Unique
use httpsig_rs.Base.{Bool, true, not, ◌&&◌, List, [], ◌∷◌, any}

-- `uniq.insert(x)` is true if no element of the set equals x; `all` stops at the first that does.
unique_from {ℓ} : {A : Type ℓ} → (A → A → Bool) → List A → List A → Bool
unique_from eq uniq [] = true
unique_from eq uniq (x ∷ xs) = not (any (eq x) uniq) && unique_from eq (x ∷ uniq) xs

unfoldable pub has_unique_elements {ℓ} : {A : Type ℓ} → (A → A → Bool) → List A → Bool
unfolding unique_from
has_unique_elements eq xs = unique_from eq [] xs
