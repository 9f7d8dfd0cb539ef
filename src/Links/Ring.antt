-- ===== src/Links/Ring.antt =====
-- A list that is not empty, seen from any of its items: the code that walks it starts at the current one.
use nocturne_os_base.Prelude.{
  ℕ, ◌^◌, ◌<◌, ◌≡◌, refl, sym, subst, ◌∙◌, ◌⊎◌, inl, inr, List, [], ◌∷◌, ◌++◌, Bool-cases, ◌==◌,
  All, length, length-append, arith,
}
use mathlib.Core.List.{append-nil}
use nocturne_os_base.Links.{Links, list_remove, advance, unlink}
use nocturne_os_base.Links.Chain.{Chain, Chain-join, Chain-split}
use nocturne_os_base.Links.Cycle.{unlink_cycle}
use nocturne_os_base.Links.Edit.{Holds, Chain-same}
use nocturne_os_base.Links.Removal.{list_remove_parts, advance-first, advance-later}
use nocturne_os_base.Links.Distinct.{
  NotIn, Distinct, All-append, All-split, All-map, Distinct-rotate,
}

-- `a` is one of the items.
abbrev pub In : ℕ → List ℕ → Type 0
In a [] = ⊥
In a (x ∷ xs) = (a ≡ x) ⊎ In a xs

pub In-left : (a : ℕ) (xs ys : List ℕ) → In a xs → In a (xs ++ ys)
In-left a [] ys m = elim m [ ]
In-left a (x ∷ xs) ys (inl e) = inl e
In-left a (x ∷ xs) ys (inr m) = inr (In-left a xs ys m)

pub In-right : (a : ℕ) (xs ys : List ℕ) → In a ys → In a (xs ++ ys)
In-right a [] ys m = m
In-right a (x ∷ xs) ys m = inr (In-right a xs ys m)

In-skip : (a : ℕ) (ys : List ℕ) (x : ℕ) (xs : List ℕ) → In a (ys ++ xs) → In a (ys ++ (x ∷ xs))
In-skip a [] x xs m = inr m
In-skip a (y ∷ ys) x xs (inl e) = inl e
In-skip a (y ∷ ys) x xs (inr m) = inr (In-skip a ys x xs m)

pub In-rotate : (a : ℕ) (xs ys : List ℕ) → In a (xs ++ ys) → In a (ys ++ xs)
In-rotate a [] ys m = In-left a ys [] m
In-rotate a (x ∷ xs) ys (inl e) = In-right a ys (x ∷ xs) (inl e)
In-rotate a (x ∷ xs) ys (inr m) = In-skip a ys x xs (In-rotate a xs ys m)

abbrev pub Closed : Links → List ℕ → Type 0
Closed s [] = ⊥
Closed s (x ∷ r) = Chain s x r x

-- The items of the list at an address, in order from any of them on.
pub record Ring (s : Links) (list : ℕ) (xs : List ℕ) : Type 0 where
  pub closed : Closed s xs
  pub head : In (s.first list) xs
  pub distinct : Distinct xs
  pub real : NotIn 0 xs
  pub owned : All (λ x. s.owner x ≡ list) xs
  pub counted : s.count list ≡ length xs

pub Holds-Ring : (s : Links) (list x : ℕ) (r : List ℕ) → Holds s list (x ∷ r) → Ring s list (x ∷ r)
Holds-Ring s list x r h = record {
  closed = h.shape.1;
  head = inl h.shape.0;
  distinct = h.distinct;
  real = h.real;
  owned = h.owned;
  counted = h.counted;
}

pub Ring-rotate :
    (s : Links) (list x : ℕ) (xs : List ℕ) (y : ℕ) (ys : List ℕ)
    → Ring s list ((x ∷ xs) ++ (y ∷ ys))
    → Ring s list ((y ∷ ys) ++ (x ∷ xs))
Ring-rotate s list x xs y ys g =
    let (l, r) = Chain-split s x xs y ys x g.closed in
    let (real_x, real_y) = All-split _ (x ∷ xs) (y ∷ ys) g.real in
    let (own_x, own_y) = All-split _ (x ∷ xs) (y ∷ ys) g.owned in
    record {
      closed = Chain-join s y ys x xs y r l;
      head = In-rotate _ (x ∷ xs) (y ∷ ys) g.head;
      distinct = Distinct-rotate (x ∷ xs) (y ∷ ys) g.distinct;
      real = All-append _ (y ∷ ys) (x ∷ xs) real_y real_x;
      owned = All-append _ (y ∷ ys) (x ∷ xs) own_y own_x;
      counted =
          g.counted
          ∙ omega (arith, length-append (x ∷ xs) (y ∷ ys), length-append (y ∷ ys) (x ∷ xs));
    }

-- The first item of the list, once another has left.
head_after :
    (s : Links) (list x y : ℕ) (r : List ℕ)
    → Ring s list (x ∷ (y ∷ r))
    → In ((advance s x).first list) (y ∷ r)
head_after s list x y r g = ring_head g.head
  where
    ring_head : In (s.first list) (x ∷ (y ∷ r)) → In ((advance s x).first list) (y ∷ r)
    ring_head (inl e) = inl (advance-first s list x y g.owned.0 e g.closed.0 g.distinct.0.0)
    ring_head (inr m) = elim (Bool-cases (s.first list == x)) [
      | inl at ↦ inl (advance-first s list x y g.owned.0 (ground arith) g.closed.0 g.distinct.0.0)
      | inr ne ↦
          subst (λ f. In f (y ∷ r))
            (sym (advance-later s list x (s.first list) g.owned.0 refl (ground arith))) m
    ]

-- The item from which the list is seen leaves it.
pub Ring-list_remove :
    (s : Links) (list x y : ℕ) (r : List ℕ)
    → length (x ∷ (y ∷ r)) < 2 ^ 32
    → Ring s list (x ∷ (y ∷ r))
    → Ring (list_remove s x) list (y ∷ r)
Ring-list_remove s list x y r room g =
    let (f, c, nx, pv, ow) =
      list_remove_parts s list x ((advance s x).first list) (length (y ∷ r)) g.owned.0 refl
        (g.counted) (omega arith) in
    record {
      closed =
          Chain-same (unlink s x) (list_remove s x) y r y nx pv
            (unlink_cycle s x y r g.distinct.0 g.distinct.1 g.closed);
      head = subst (λ a. In a (y ∷ r)) (sym f) (head_after s list x y r g);
      distinct = g.distinct.1;
      real = g.real.1;
      owned = All-map _ _ (y ∷ r) (λ p o. ow p ∙ o) g.owned.1;
      counted = c;
    }

-- Any other item leaves it.
pub Ring-remove_inner :
    (s : Links) (list n : ℕ) (ws : List ℕ) (q : ℕ) (qs : List ℕ)
    → length ((n ∷ ws) ++ (q ∷ qs)) < 2 ^ 32
    → Ring s list ((n ∷ ws) ++ (q ∷ qs))
    → Ring (list_remove s q) list ((n ∷ ws) ++ qs)
Ring-remove_inner s list n ws q [] room g = rw (append-nil ws) (
    Ring-list_remove s list q n ws (omega (arith, length-append (n ∷ ws) (q ∷ [])))
      (Ring-rotate s list n ws q [] g))
Ring-remove_inner s list n ws q (p ∷ qs) room g = Ring-rotate (list_remove s q) list p qs n ws (
    Ring-list_remove s list q p (qs ++ (n ∷ ws))
      (omega (arith, length-append (n ∷ ws) (q ∷ (p ∷ qs)), length-append qs (n ∷ ws)))
      (Ring-rotate s list n ws q (p ∷ qs) g))
