-- ===== src/Base/Maps.antt =====
-- `HashMap` and `HashSet` as lists with one entry for a key; the order of the entries is no one's.
use Prim.Native.Nat.{ℕ, zero, suc}
use mathlib.Core.Path.{◌≡◌, refl, sym, ap, subst, ◌∙◌}
use mathlib.Core.Logic.{◌≢◌, ite, if_pos, if_neg}
use mathlib.Core.Option.{Option, none, some}
use mathlib.Core.List.{List, [], ◌∷◌}
use native.Mathlib.Omega.{arith}
use redfog.Base.Lists.{get_elem?}

module _ {ℓ κ} {K : Type ℓ} {V : Type κ} (dec : Discrete K) where
  unfoldable pub get : K → List (K × V) → Option V
  get k [] = none
  get k ((j, v) ∷ m) = ite (dec j k) (some v) (get k m)

  unfoldable pub remove : K → List (K × V) → List (K × V)
  remove k [] = []
  remove k ((j, v) ∷ m) = ite (dec j k) (remove k m) ((j, v) ∷ remove k m)

  unfoldable pub insert : K → V → List (K × V) → List (K × V)
  insert k v m = (k, v) ∷ remove k m

module _ {K V : Type 0} (dec : Discrete K) where
  pub get-remove_self : (k : K) (m : List (K × V)) → get dec k (remove dec k m) ≡ none
  unfolding get remove
  get-remove_self k [] = refl
  get-remove_self k ((j, v) ∷ m) = ground (arith, get-remove_self k m)

  pub get-remove_ne :
      (k j : K) (m : List (K × V)) → k ≢ j → get dec j (remove dec k m) ≡ get dec j m
  unfolding get remove
  get-remove_ne k j [] h = refl
  get-remove_ne k j ((i, v) ∷ m) h = elim (dec i k) [
    | yes p ↦ rw (if_pos (dec i k) p, if_neg (dec i j) (λ q. h (sym p ∙ q))) (get-remove_ne k j m h)
    | no p ↦ rw (if_neg (dec i k) p) (ground (arith, get-remove_ne k j m h))
  ]

  pub get-insert_self : (k : K) (v : V) (m : List (K × V)) → get dec k (insert dec k v m) ≡ some v
  unfolding get insert
  get-insert_self k v m = rw (if_pos (dec k k) refl)

  pub get-insert_ne :
      (k j : K) (v : V) (m : List (K × V)) → k ≢ j → get dec j (insert dec k v m) ≡ get dec j m
  unfolding get insert
  get-insert_ne k j v m h = rw (if_neg (dec k j) h) (get-remove_ne k j m h)

  pub get-remove_eq : (k j : K) (m : List (K × V)) → k ≡ j → get dec j (remove dec k m) ≡ none
  get-remove_eq k j m h =
      subst (λ (i : K). get dec i (remove dec k m) ≡ none) h (get-remove_self k m)

  pub get-insert_eq :
      (k j : K) (v : V) (m : List (K × V)) → k ≡ j → get dec j (insert dec k v m) ≡ some v
  get-insert_eq k j v m h =
      subst (λ (i : K). get dec i (insert dec k v m) ≡ some v) h (get-insert_self k v m)

  -- No key has two entries.
  abbrev pub Unique : List (K × V) → Type 0
  Unique [] = Unit
  Unique ((k, v) ∷ m) = (get dec k m ≡ none) × Unique m

  pub remove-Unique : (k : K) (m : List (K × V)) → Unique m → Unique (remove dec k m)
  unfolding remove
  remove-Unique k [] u = tt
  remove-Unique k ((j, v) ∷ m) u = elim (dec j k) [
    | yes p ↦ rw (if_pos (dec j k) p) (remove-Unique k m u.1)
    | no p ↦
        rw (if_neg (dec j k) p) (get-remove_ne k j m (λ q. p (sym q)) ∙ u.0, remove-Unique k m u.1)
  ]

  pub insert-Unique : (k : K) (v : V) (m : List (K × V)) → Unique m → Unique (insert dec k v m)
  unfolding insert
  insert-Unique k v m u = (get-remove_self k m, remove-Unique k m u)

  -- Without a second entry, the entry at a place is the one that a lookup finds.
  pub get-get_elem :
      (m : List (K × V)) (n : ℕ) (k : K) (v : V)
      → Unique m
      → get_elem? m n ≡ some (k, v)
      → get dec k m ≡ some v
  unfolding get
  get-get_elem [] n k v u at = absurd (cc at)
  get-get_elem ((j, w) ∷ m) zero k v u at =
      let same : j ≡ k = cc at in
      let value : w ≡ v = cc at in rw (if_pos (dec j k) same) (ap some value)
  get-get_elem ((j, w) ∷ m) (suc n) k v u at = elim (dec j k) [
    | yes p ↦
        let twice : get dec j m ≡ some v =
          subst (λ (i : K). get dec i m ≡ some v) (sym p) (get-get_elem m n k v u.1 at) in
        absurd (cc (twice, u.0))
    | no p ↦ rw (if_neg (dec j k) p) (get-get_elem m n k v u.1 at)
  ]
