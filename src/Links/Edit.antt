-- ===== src/Links/Edit.antt =====
-- list_add puts an item at the end of the list, list_remove takes one out at any place, and neither touches another list.
use nocturne_os_base.Prelude.{
  ℕ, ◌+◌, ◌^◌, ◌<◌, ◌≡◌, refl, sym, ap, ◌∙◌, ◌≢◌, List, [], ◌∷◌, ◌++◌, length, length-append, false,
  ◌==◌, u32, All, arith,
}
use nocturne_os_base.Links.{Links, update, set_owner, set_count, list_add, link, link_alone}
use nocturne_os_base.Links.Chain.{Chain, Chain-join}
use nocturne_os_base.Links.Cycle.{update_ne, update_self, link_cycle}
use nocturne_os_base.Links.Distinct.{NotIn, Distinct, All-append, All-map, Distinct-rotate}

-- The first item leads round all of them and back to itself.
abbrev pub Shape : Links → ℕ → List ℕ → Type 0
Shape s list [] = s.first list ≡ 0
Shape s list (x ∷ r) = (s.first list ≡ x) × Chain s x r x

-- The list at the address holds the items, in order.
pub record Holds (s : Links) (list : ℕ) (xs : List ℕ) : Type 0 where
  pub shape : Shape s list xs
  pub distinct : Distinct xs
  pub real : NotIn 0 xs
  pub owned : All (λ x. s.owner x ≡ list) xs
  pub counted : s.count list ≡ length xs

-- What differs between two states is not seen by a closed chain.
pub Chain-same :
    (s t : Links) (a : ℕ) (xs : List ℕ) (b : ℕ)
    → ((p : ℕ) → t.next p ≡ s.next p)
    → ((p : ℕ) → t.prev p ≡ s.prev p)
    → Chain s a xs b
    → Chain t a xs b
Chain-same s t a [] b n p c = (n a ∙ c.0, p b ∙ c.1)
Chain-same s t a (x ∷ xs) b n p c = (n a ∙ c.0, p x ∙ c.1, Chain-same s t x xs b n p c.2)

-- An item that is in no list yet is none of the items.
NotIn-of-owner :
    (s : Links) (list i : ℕ) (xs : List ℕ)
    → list ≢ 0
    → s.owner i ≡ 0
    → All (λ x. s.owner x ≡ list) xs
    → NotIn i xs
NotIn-of-owner s list i xs some_list free owned =
    All-map _ _ xs (λ x o e. some_list (sym o ∙ (ap s.owner (sym e) ∙ free))) owned

pub link-owner : (s : Links) (i x p : ℕ) → (link s i x).owner p ≡ s.owner p
unfolding link
link-owner s i x p = refl

pub link-first : (s : Links) (i x p : ℕ) → (link s i x).first p ≡ s.first p
unfolding link
link-first s i x p = refl

pub link-count : (s : Links) (i x p : ℕ) → (link s i x).count p ≡ s.count p
unfolding link
link-count s i x p = refl

-- The two cases of list_add.
pub add_alone :
    (s : Links) (list i : ℕ)
    → s.first list ≡ 0
    → s.owner i ≡ 0
    → list_add s list i
      ≡ set_count (link_alone (set_owner s i list) list i) list (u32 (s.count list + 1))
unfolding list_add
add_alone s list i none_yet free = rw (none_yet, free) refl

pub add_behind :
    (s : Links) (list i x : ℕ)
    → s.first list ≡ x
    → 0 ≢ x
    → s.owner i ≡ 0
    → list_add s list i ≡ set_count (link (set_owner s i list) i x) list (u32 (s.count list + 1))
unfolding list_add
add_behind s list i x first_x some_item free =
    let t : (s.first list == 0) ≡ false = rw first_x (ground arith) in rw (free, t, first_x) refl

owned_set :
    (s : Links) (list m i : ℕ) (xs : List ℕ)
    → NotIn i xs
    → All (λ x. s.owner x ≡ m) xs
    → All (λ x. update s.owner i list x ≡ m) xs
owned_set s list m i [] out o = tt
owned_set s list m i (x ∷ xs) out o =
    (update_ne s.owner i list x out.0 ∙ o.0, owned_set s list m i xs out.1 o.1)

-- One more item, on a count that has not reached the end of its type.
count_more :
    (c : ℕ) (xs : List ℕ) (i : ℕ)
    → c ≡ length xs
    → length xs + 1 < 2 ^ 32
    → u32 (c + 1) ≡ length (xs ++ (i ∷ []))
count_more c xs i e room = omega (arith, length-append xs (i ∷ []))

module _ (s : Links) (list i : ℕ) (some_list : list ≢ 0) (real : 0 ≢ i) (free : s.owner i ≡ 0) where
  -- `list_add` of an item that is in no list to a list in order with fewer than 2^32 - 1 items puts it at the end, and the list is in order.
  pub list_add-Holds :
      (xs : List ℕ)
      → Holds s list xs
      → length xs + 1 < 2 ^ 32
      → Holds (list_add s list i) list (xs ++ (i ∷ []))
  unfolding link_alone
  list_add-Holds [] h room = rw (add_alone s list i h.shape free) record {
    shape = (update_self s.first list i, (update_self s.next i i, update_self s.prev i i));
    distinct = (tt, tt);
    real = (real, tt);
    owned = (update_self s.owner i list, tt);
    counted = update_self s.count list _ ∙ count_more (s.count list) [] i h.counted room;
  }
  list_add-Holds (x ∷ r) h room =
      let out = NotIn-of-owner s list i (x ∷ r) some_list free h.owned in
      let t = set_owner s i list in
      let seam =
        link_cycle t i x r out h.distinct
          (Chain-same s t x r x (λ p. refl) (λ p. refl) h.shape.1) in
      let closed = Chain-join (link t i x) x r i [] x seam.2 (seam.0, seam.1) in
      let n = u32 (s.count list + 1) in
      let u = set_count (link t i x) list n in
      rw (add_behind s list i x h.shape.0 h.real.0 free) record {
        shape = (
          link-first t i x list ∙ h.shape.0,
          Chain-same (link t i x) u x (r ++ (i ∷ [])) x (λ p. refl) (λ p. refl) closed,
        );
        distinct = Distinct-rotate (i ∷ []) (x ∷ r) (out, h.distinct);
        real = All-append _ (x ∷ r) (i ∷ []) h.real (real, tt);
        owned =
            All-append _ (x ∷ r) (i ∷ [])
              (All-map _ _ (x ∷ r) (λ y o. link-owner t i x y ∙ o)
                (owned_set s list list i (x ∷ r) out h.owned))
              (link-owner t i x i ∙ update_self s.owner i list, tt);
        counted =
            update_self (link t i x).count list n
            ∙ count_more (s.count list) (x ∷ r) i h.counted room;
      }
