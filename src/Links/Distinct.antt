-- ===== src/Links/Distinct.antt =====
-- Lists of items in which none stands twice.
use nocturne_os_base.Prelude.{ℕ, sym, ◌≢◌, List, [], ◌∷◌, ◌++◌, All}

abbrev pub NotIn : ℕ → List ℕ → Type 0
NotIn a xs = All (λ x. a ≢ x) xs

abbrev pub Distinct : List ℕ → Type 0
Distinct [] = Unit
Distinct (x ∷ xs) = NotIn x xs × Distinct xs

module _ {ℓ κ} {A : Type ℓ} (P : A → Type κ) where
  pub All-append : (xs ys : List A) → All P xs → All P ys → All P (xs ++ ys)
  All-append [] ys p q = q
  All-append (x ∷ xs) ys p q = (p.0, All-append xs ys p.1 q)

  pub All-split : (xs ys : List A) → All P (xs ++ ys) → All P xs × All P ys
  All-split [] ys p = (tt, p)
  All-split (x ∷ xs) ys p = let (l, r) = All-split xs ys p.1 in ((p.0, l), r)

pub All-map {ℓ κ λ'} :
    {A : Type ℓ} (P : A → Type κ) (Q : A → Type λ') (xs : List A)
    → ((x : A) → P x → Q x)
    → All P xs
    → All Q xs
All-map P Q [] f p = tt
All-map P Q (x ∷ xs) f p = (f x p.0, All-map P Q xs f p.1)

-- No item of one list stands in the other.
abbrev pub Apart : List ℕ → List ℕ → Type 0
Apart xs ys = All (λ x. NotIn x ys) xs

pub Distinct-append :
    (xs ys : List ℕ) → Distinct xs → Distinct ys → Apart xs ys → Distinct (xs ++ ys)
Distinct-append [] ys d e a = e
Distinct-append (x ∷ xs) ys d e a = (All-append _ xs ys d.0 a.0, Distinct-append xs ys d.1 e a.1)

pub Distinct-split :
    (xs ys : List ℕ) → Distinct (xs ++ ys) → Distinct xs × Distinct ys × Apart xs ys
Distinct-split [] ys d = (tt, d, tt)
Distinct-split (x ∷ xs) ys d =
    let (l, r) = All-split _ xs ys d.0 in
    let (e, f, a) = Distinct-split xs ys d.1 in ((l, e), f, (r, a))

Apart-nil : (ys : List ℕ) → Apart ys []
Apart-nil [] = tt
Apart-nil (y ∷ ys) = (tt, Apart-nil ys)

Apart-cons : (x : ℕ) (xs ys : List ℕ) → NotIn x ys → Apart ys xs → Apart ys (x ∷ xs)
Apart-cons x xs [] out a = tt
Apart-cons x xs (y ∷ ys) out a = ((λ e. out.0 (sym e), a.0), Apart-cons x xs ys out.1 a.1)

pub Apart-sym : (xs ys : List ℕ) → Apart xs ys → Apart ys xs
Apart-sym [] ys a = Apart-nil ys
Apart-sym (x ∷ xs) ys a = Apart-cons x xs ys a.0 (Apart-sym xs ys a.1)

pub Distinct-rotate : (xs ys : List ℕ) → Distinct (xs ++ ys) → Distinct (ys ++ xs)
Distinct-rotate xs ys d =
    let (l, r, a) = Distinct-split xs ys d in Distinct-append ys xs r l (Apart-sym xs ys a)
