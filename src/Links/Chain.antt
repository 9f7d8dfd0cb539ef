-- ===== src/Links/Chain.antt =====
-- Chains of items that lead from one to the next and back, and what a write into the links leaves of them.
use nocturne_os_base.Prelude.{ℕ, ◌≡◌, ◌∙◌, ◌≢◌, List, [], ◌∷◌, ◌++◌, All, arith}
use nocturne_os_base.Links.Distinct.{NotIn, Distinct}
use nocturne_os_base.Links.{Links, set_prev, set_next}

-- From `a` the items `xs` lead to `b`, by `next`, and back by `prev`.
abbrev pub Chain : Links → ℕ → List ℕ → ℕ → Type 0
Chain s a [] b = (s.next a ≡ b) × (s.prev b ≡ a)
Chain s a (x ∷ xs) b = (s.next a ≡ x) × (s.prev x ≡ a) × Chain s x xs b

abbrev pub last_of : ℕ → List ℕ → ℕ
last_of a [] = a
last_of a (x ∷ xs) = last_of x xs

pub NotIn-last : (p a : ℕ) (xs : List ℕ) → p ≢ a → NotIn p xs → p ≢ last_of a xs
NotIn-last p a [] ne out = ne
NotIn-last p a (x ∷ xs) ne out = NotIn-last p x xs out.0 out.1

pub Chain-prev :
    (s : Links) (a : ℕ) (xs : List ℕ) (b : ℕ) → Chain s a xs b → s.prev b ≡ last_of a xs
Chain-prev s a [] b c = c.1
Chain-prev s a (x ∷ xs) b c = Chain-prev s x xs b c.2

pub Chain-next_last :
    (s : Links) (a : ℕ) (xs : List ℕ) (b : ℕ) → Chain s a xs b → s.next (last_of a xs) ≡ b
Chain-next_last s a [] b c = c.0
Chain-next_last s a (x ∷ xs) b c = Chain-next_last s x xs b c.2

-- Two chains that meet are one.
pub Chain-join :
    (s : Links) (a : ℕ) (xs : List ℕ) (m : ℕ) (ys : List ℕ) (b : ℕ)
    → Chain s a xs m
    → Chain s m ys b
    → Chain s a (xs ++ (m ∷ ys)) b
Chain-join s a [] m ys b c d = (c.0, c.1, d)
Chain-join s a (x ∷ xs) m ys b c d = (c.0, c.1, Chain-join s x xs m ys b c.2 d)

pub Chain-split :
    (s : Links) (a : ℕ) (xs : List ℕ) (m : ℕ) (ys : List ℕ) (b : ℕ)
    → Chain s a (xs ++ (m ∷ ys)) b
    → Chain s a xs m × Chain s m ys b
Chain-split s a [] m ys b c = ((c.0, c.1), c.2)
Chain-split s a (x ∷ xs) m ys b c = let (l, r) = Chain-split s x xs m ys b c.2 in ((c.0, c.1, l), r)

-- A change that spares the links of a chain.
pub Chain-frame :
    (s t : Links) (a : ℕ) (xs : List ℕ) (b : ℕ)
    → t.next a ≡ s.next a
    → All (λ x. (t.next x ≡ s.next x) × (t.prev x ≡ s.prev x)) xs
    → t.prev b ≡ s.prev b
    → Chain s a xs b
    → Chain t a xs b
Chain-frame s t a [] b n same p c = (n ∙ c.0, p ∙ c.1)
Chain-frame s t a (x ∷ xs) b n same p c =
    (n ∙ c.0, same.0.1 ∙ c.1, Chain-frame s t x xs b same.0.0 same.1 p c.2)

-- The last link of a chain led elsewhere: its items up to the last one lead on to a new end.
pub Chain-redirect :
    (s : Links) (a : ℕ) (xs : List ℕ) (b e : ℕ)
    → Distinct (a ∷ xs)
    → NotIn e xs
    → Chain s a xs b
    → Chain (set_prev (set_next s (last_of a xs) e) e (last_of a xs)) a xs e
Chain-redirect s a [] b e d out c = ground arith
Chain-redirect s a (x ∷ xs) b e d out c =
    let away = NotIn-last a x xs d.0.0 d.0.1 in
    let rest = Chain-redirect s x xs b e d.1 out.1 c.2 in (ground arith, ground arith, rest)
