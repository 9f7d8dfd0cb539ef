-- ===== src/Links/Removal.antt =====
-- list_remove takes an item out of its list, wherever it stands in it.
use nocturne_os_base.Prelude.{
  ℕ, suc, ◌+◌, ◌^◌, ◌<◌, ◌≡◌, refl, sym, ap, ◌∙◌, ◌≢◌, List, [], ◌∷◌, ◌++◌, length, inl, inr,
  Bool-cases, length-append, ◌==◌, arith,
}
use mathlib.Core.List.{append-nil}
use nocturne_os_base.Links.{Links, update, list_remove, advance, unlink}
use nocturne_os_base.Links.Chain.{Chain, Chain-join, Chain-split}
use nocturne_os_base.Links.Cycle.{update_ne, update_self, unlink_cycle}
use nocturne_os_base.Links.Edit.{Shape, Holds, Chain-same}
use nocturne_os_base.Links.Distinct.{
  Distinct, All-append, All-split, All-map, Distinct-append, Distinct-split, Distinct-rotate,
}

-- `advance` touches the first item of the list only.
pub advance-keeps :
    (s : Links) (i : ℕ)
    → (f : ℕ → ℕ) × (advance s i ≡ record s { first = f })
      × ((m : ℕ) → s.owner i ≢ m → f m ≡ s.first m)
unfolding advance
advance-keeps s i = elim (Bool-cases (s.first (s.owner i) == i)) [
  | inl at ↦ elim (Bool-cases (s.next i == i)) [
    | inl only ↦ (
      update (update s.first (s.owner i) (s.next i)) (s.owner i) 0,
      rw (at, only) refl,
      λ m ne. ground arith,
    )
    | inr more ↦ (
      update s.first (s.owner i) (s.next i),
      rw (at, more) refl,
      λ m ne. update_ne s.first _ _ m ne,
    )
  ]
  | inr other ↦ (s.first, rw other refl, λ m ne. refl)
]

-- What list_remove leaves, with the first item that `advance` finds.
pub list_remove_parts :
    (s : Links) (list i n c : ℕ)
    → s.owner i ≡ list
    → (advance s i).first list ≡ n
    → s.count list ≡ suc c
    → c + 1 < 2 ^ 32
    → ((list_remove s i).first list ≡ n)
      × ((list_remove s i).count list ≡ c)
      × ((p : ℕ) → (list_remove s i).next p ≡ (unlink s i).next p)
      × ((p : ℕ) → (list_remove s i).prev p ≡ (unlink s i).prev p)
      × ((p : ℕ) → (list_remove s i).owner p ≡ s.owner p)
unfolding list_remove unlink
list_remove_parts s list i n c own first_n count_c room =
    let (f, e, _) = advance-keeps s i in
    let first_f : f list ≡ n = sym (ap (λ (t : Links). t.first list) e) ∙ first_n in
    rw (e, own)
      (
        first_f,
        update_self s.count list _ ∙ (rw count_c (omega arith)),
        λ p. refl,
        λ p. refl,
        λ p. refl,
      )

-- The first item after `advance`.
advance-only :
    (s : Links) (list i : ℕ)
    → s.owner i ≡ list
    → s.first list ≡ i
    → s.next i ≡ i
    → (advance s i).first list ≡ 0
unfolding advance
advance-only s list i own at only = rw (own, at, only) (ground arith)

pub advance-first :
    (s : Links) (list i z : ℕ)
    → s.owner i ≡ list
    → s.first list ≡ i
    → s.next i ≡ z
    → i ≢ z
    → (advance s i).first list ≡ z
unfolding advance
advance-first s list i z own at n ne = rw (own, at, n) (ground arith)

pub advance-later :
    (s : Links) (list i y : ℕ)
    → s.owner i ≡ list
    → s.first list ≡ y
    → i ≢ y
    → (advance s i).first list ≡ y
unfolding advance
advance-later s list i y own at ne = rw (own, at) (ground arith)

-- The chain of the items that stay.
module _ (s : Links) (i : ℕ) where
  last_gone :
      (y : ℕ) (r : List ℕ)
      → Distinct (i ∷ y ∷ r)
      → Chain s y (r ++ (i ∷ [])) y
      → Chain (unlink s i) y r y
  last_gone y r d c =
      let (l, m) = Chain-split s y r i [] y c in unlink_cycle s i y r d.0 d.1 (m.0, m.1, l)

  middle_gone :
      (y : ℕ) (r : List ℕ) (z : ℕ) (w : List ℕ)
      → Distinct (i ∷ ((z ∷ w) ++ (y ∷ r)))
      → Chain s y (r ++ (i ∷ (z ∷ w))) y
      → Chain (unlink s i) y (r ++ (z ∷ w)) y
  middle_gone y r z w d c =
      let (l, m) = Chain-split s y r i (z ∷ w) y c in
      let round = Chain-join s z w y r i m.2 l in
      let (before, after) =
        Chain-split (unlink s i) z w y r z
          (unlink_cycle s i z (w ++ (y ∷ r)) d.0 d.1 (m.0, m.1, round)) in
      Chain-join (unlink s i) y r z w y after before

-- Where the item stands decides on the first item and on the chain.
stays :
    (s : Links) (list i : ℕ) (ys zs : List ℕ)
    → s.owner i ≡ list
    → Distinct (ys ++ (i ∷ zs))
    → Shape s list (ys ++ (i ∷ zs))
    → (n : ℕ) × ((advance s i).first list ≡ n)
      × ((t : Links)
          → ((p : ℕ) → t.next p ≡ (unlink s i).next p)
          → ((p : ℕ) → t.prev p ≡ (unlink s i).prev p)
          → t.first list ≡ n
          → Shape t list (ys ++ zs))
stays s list i [] [] own d h = (0, advance-only s list i own h.0 h.1.0, λ t n p f. f)
stays s list i [] (z ∷ r) own d h = (
  z,
  advance-first s list i z own h.0 h.1.0 d.0.0,
  λ t n p f. (f, Chain-same (unlink s i) t z r z n p (unlink_cycle s i z r d.0 d.1 h.1)),
)
stays s list i (y ∷ r) [] own d h =
    let e = Distinct-rotate (y ∷ r) (i ∷ []) d in
    (
      y,
      advance-later s list i y own h.0 e.0.0,
      λ t n p f.
          rw (append-nil r) (f, Chain-same (unlink s i) t y r y n p (last_gone s i y r e h.1)),
    )
stays s list i (y ∷ r) (z ∷ w) own d h =
    let e = Distinct-rotate (y ∷ r) (i ∷ (z ∷ w)) d in
    let (l, m) = All-split _ (z ∷ w) (y ∷ r) e.0 in
    (
      y,
      advance-later s list i y own h.0 m.0,
      λ t n p f.
          (f, Chain-same (unlink s i) t y (r ++ (z ∷ w)) y n p (middle_gone s i y r z w e h.1)),
    )

-- `list_remove` of an item of a list in order with fewer than 2^32 items, wherever it stands, leaves the list in order with the other items
-- in the same order.
pub list_remove-Holds :
    (s : Links) (list i : ℕ) (ys zs : List ℕ)
    → length (ys ++ (i ∷ zs)) < 2 ^ 32
    → Holds s list (ys ++ (i ∷ zs))
    → Holds (list_remove s i) list (ys ++ zs)
list_remove-Holds s list i ys zs room h =
    let (own_ys, own) = All-split _ ys (i ∷ zs) h.owned in
    let (real_ys, real) = All-split _ ys (i ∷ zs) h.real in
    let (d, e, a) = Distinct-split ys (i ∷ zs) h.distinct in
    let (n, first_n, shape) = stays s list i ys zs own.0 h.distinct h.shape in
    let size : length (ys ++ (i ∷ zs)) ≡ suc (length (ys ++ zs)) =
      omega (arith, length-append ys (i ∷ zs), length-append ys zs) in
    let (f, c, nx, pv, ow) =
      list_remove_parts s list i n (length (ys ++ zs)) own.0 first_n (h.counted ∙ size)
        (omega arith) in
    record {
      shape = shape (list_remove s i) nx pv f;
      distinct = Distinct-append ys zs d e.1 (All-map _ _ ys (λ x p. p.1) a);
      real = All-append _ ys zs real_ys real.1;
      owned = All-map _ _ (ys ++ zs) (λ x o. ow x ∙ o) (All-append _ ys zs own_ys own.1);
      counted = c;
    }
