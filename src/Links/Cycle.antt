-- ===== src/Links/Cycle.antt =====
-- The writes of list_add and list_remove on a closed chain.
use nocturne_os_base.Prelude.{ℕ, ◌≡◌, refl, sym, ap, ◌∙◌, ◌≢◌, List, [], ◌∷◌, All, arith}
use nocturne_os_base.Links.{Links, update, set_prev, set_next, link, unlink}
use nocturne_os_base.Links.Chain.{
  Chain, last_of, Chain-prev, NotIn-last, Chain-frame, Chain-redirect,
}
use nocturne_os_base.Links.Distinct.{NotIn, Distinct}

pub update_ne : (f : ℕ → ℕ) (a v b : ℕ) → a ≢ b → update f a v b ≡ f b
update_ne f a v b ne = ground arith

pub update_self : (f : ℕ → ℕ) (a v : ℕ) → update f a v a ≡ v
update_self f a v = ground arith

-- What `link` leaves: the links of the new item, and those of the other items but at the seam.
pub link_next :
    (s : Links) (i x p : ℕ)
    → i ≢ x
    → i ≢ s.prev x
    → (link s i x).next p ≡ update (update s.next (s.prev x) i) i x p
unfolding link
link_next s i x p ne away = ground arith

pub link_prev :
    (s : Links) (i x p : ℕ)
    → i ≢ x
    → i ≢ s.prev x
    → (link s i x).prev p ≡ update (update s.prev i (s.prev x)) x i p
unfolding link
link_prev s i x p ne away = ground arith

-- A chain that neither write touches.
spared :
    (u t : Links) (i x : ℕ)
    → ((p : ℕ) → t.next p ≡ update u.next i x p)
    → ((p : ℕ) → t.prev p ≡ update u.prev x i p)
    → (r : List ℕ) → NotIn i r
    → NotIn x r
    → All (λ y. (t.next y ≡ u.next y) × (t.prev y ≡ u.prev y)) r
spared u t i x n p [] out away = tt
spared u t i x n p (y ∷ r) out away = (
  (n y ∙ update_ne u.next i x y out.0, p y ∙ update_ne u.prev x i y away.0),
  spared u t i x n p r out.1 away.1,
)

-- A closed chain takes a new item between its last item and its first.
pub link_cycle :
    (s : Links) (i x : ℕ) (r : List ℕ)
    → NotIn i (x ∷ r)
    → Distinct (x ∷ r)
    → Chain s x r x
    → Chain (link s i x) i (x ∷ r) i
link_cycle s i x r out d c =
    let z = last_of x r in
    let at_z : s.prev x ≡ z = Chain-prev s x r x c in
    let away : i ≢ z = NotIn-last i x r out.0 out.1 in
    let u = set_prev (set_next s z i) i z in
    let moved : Chain u x r i = Chain-redirect s x r x i d out.1 c in
    let next_eq : (p : ℕ) → (link s i x).next p ≡ update u.next i x p =
      λ p. rw (link_next s i x p out.0 (rw at_z away), at_z) refl in
    let prev_eq : (p : ℕ) → (link s i x).prev p ≡ update u.prev x i p =
      λ p. rw (link_prev s i x p out.0 (rw at_z away), at_z) refl in
    let same = spared u (link s i x) i x next_eq prev_eq in
    (
      next_eq i ∙ update_self u.next i x,
      prev_eq x ∙ update_self u.prev x i,
      Chain-frame u (link s i x) x r i (next_eq x ∙ update_ne u.next i x x out.0) (same r out.1 d.0)
          (prev_eq i ∙ update_ne u.prev x i i (λ e. out.0 (sym e))) moved,
    )

unlink-redirect :
    (s : Links) (i x z : ℕ)
    → s.next i ≡ x
    → s.prev i ≡ z
    → i ≢ x
    → unlink s i ≡ set_prev (set_next s z x) x z
unfolding unlink
unlink-redirect s i x z n p ne =
    rw (n, p)
      (ap (λ w. record s { prev = update s.prev x z; next = update s.next w x }) (ground arith))

-- A closed chain gives up an item that is not its only one.
pub unlink_cycle :
    (s : Links) (i x : ℕ) (r : List ℕ)
    → NotIn i (x ∷ r)
    → Distinct (x ∷ r)
    → Chain s i (x ∷ r) i
    → Chain (unlink s i) x r x
unlink_cycle s i x r out d c =
    let z = last_of x r in
    rw (unlink-redirect s i x z c.0 (Chain-prev s x r i c.2) out.0)
      (Chain-redirect s x r i x d d.0 c.2)
