-- ===== src/Links/Other.antt =====
-- What list_add and list_remove do to one list is not seen in another, and an item that has left a list cannot be added again.
use nocturne_os_base.Prelude.{
  ℕ, ◌+◌, ◌≡◌, refl, sym, ap, ◌∙◌, ◌≢◌, List, [], ◌∷◌, ◌++◌, false, ◌==◌, u32, All, arith,
}
use nocturne_os_base.Links.{
  Links, update, set_owner, set_count, list_add, list_remove, link, link_alone, unlink,
}
use nocturne_os_base.Links.Chain.{Chain, Chain-prev, Chain-split, Chain-frame, last_of}
use nocturne_os_base.Links.Cycle.{update_ne, link_next, link_prev}
use nocturne_os_base.Links.Removal.{advance-keeps}
use nocturne_os_base.Links.Edit.{Holds, add_alone, add_behind, link-owner, link-first, link-count}
use nocturne_os_base.Links.Distinct.{All-map, All-split}

owned_frame :
    (s t : Links) (m : ℕ) (ys : List ℕ)
    → All (λ p. (t.next p ≡ s.next p) × (t.prev p ≡ s.prev p) × (t.owner p ≡ s.owner p)) ys
    → All (λ p. s.owner p ≡ m) ys
    → All (λ p. t.owner p ≡ m) ys
owned_frame s t m [] same o = tt
owned_frame s t m (y ∷ ys) same o = (same.0.2 ∙ o.0, owned_frame s t m ys same.1 o.1)

-- Two states that agree on the items of a list and on its head.
pub Holds-frame_on :
    (s t : Links) (m : ℕ) (ys : List ℕ)
    → All (λ p. (t.next p ≡ s.next p) × (t.prev p ≡ s.prev p) × (t.owner p ≡ s.owner p)) ys
    → t.first m ≡ s.first m
    → t.count m ≡ s.count m
    → Holds s m ys
    → Holds t m ys
Holds-frame_on s t m [] same f c h = record {
  shape = f ∙ h.shape;
  distinct = tt;
  real = tt;
  owned = tt;
  counted = c ∙ h.counted;
}
Holds-frame_on s t m (y ∷ ys) same f c h =
    let each = All-map _ _ ys (λ x o. (o.0, o.1)) same.1 in
    record {
      shape = (f ∙ h.shape.0, Chain-frame s t y ys y same.0.0 each same.0.1 h.shape.1);
      distinct = h.distinct;
      real = h.real;
      owned = owned_frame s t m (y ∷ ys) same h.owned;
      counted = c ∙ h.counted;
    }

Holds-frame :
    (s t : Links) (m : ℕ) (ys : List ℕ)
    → ((p : ℕ)
        → s.owner p ≡ m
        → (t.next p ≡ s.next p) × (t.prev p ≡ s.prev p) × (t.owner p ≡ s.owner p))
    → t.first m ≡ s.first m
    → t.count m ≡ s.count m
    → Holds s m ys
    → Holds t m ys
Holds-frame s t m ys same f c h = Holds-frame_on s t m ys (All-map _ _ ys same h.owned) f c h

owner-last :
    (s : Links) (list a : ℕ) (xs : List ℕ)
    → s.owner a ≡ list
    → All (λ x. s.owner x ≡ list) xs
    → s.owner (last_of a xs) ≡ list
owner-last s list a [] o os = o
owner-last s list a (x ∷ xs) o os = owner-last s list x xs os.0 os.1

-- Items of different lists differ.
ne_of_owner : (s : Links) (k m a b : ℕ) → k ≢ m → s.owner a ≡ k → s.owner b ≡ m → a ≢ b
ne_of_owner s k m a b ne oa ob e = ne (sym oa ∙ (ap s.owner e ∙ ob))

owner-next :
    (s : Links) (list a : ℕ) (xs : List ℕ) (b : ℕ)
    → s.owner b ≡ list
    → All (λ x. s.owner x ≡ list) xs
    → Chain s a xs b
    → s.owner (s.next a) ≡ list
owner-next s list a [] b o os c = ap s.owner c.0 ∙ o
owner-next s list a (x ∷ xs) b o os c = ap s.owner c.0 ∙ os.0

-- Both neighbours of an item are in its list.
neighbours :
    (s : Links) (list i : ℕ) (ys zs : List ℕ)
    → Holds s list (ys ++ (i ∷ zs))
    → (s.owner (s.next i) ≡ list) × (s.owner (s.prev i) ≡ list)
neighbours s list i [] zs h = (
  owner-next s list i zs i h.owned.0 h.owned.1 h.shape.1,
  ap s.owner (Chain-prev s i zs i h.shape.1) ∙ owner-last s list i zs h.owned.0 h.owned.1,
)
neighbours s list i (y ∷ r) zs h =
    let (l, m) = Chain-split s y r i zs y h.shape.1 in
    let (own_r, own) = All-split _ r (i ∷ zs) h.owned.1 in
    (
      owner-next s list i zs y h.owned.0 own.1 m,
      ap s.owner (Chain-prev s y r i l) ∙ owner-last s list y r h.owned.0 own_r,
    )

-- Where the second write of `unlink` goes.
seam : (s : Links) (i : ℕ) → update s.prev (s.next i) (s.prev i) i ≡ s.prev i
seam s i = ground arith

module _ (s : Links) (list m : ℕ) (ne : list ≢ m) where
  pub list_add-other :
      (i : ℕ) (xs ys : List ℕ)
      → 0 ≢ m
      → list ≢ 0
      → s.owner i ≡ 0
      → Holds s list xs
      → Holds s m ys
      → Holds (list_add s list i) m ys
  unfolding link_alone
  list_add-other i [] ys real_m real_list free h k = rw (add_alone s list i h.shape free) (
      Holds-frame s _ m ys
        (λ p o.
          let away = ne_of_owner s 0 m i p real_m free o in
          (
            update_ne s.next i i p away,
            update_ne s.prev i i p away,
            update_ne s.owner i list p away,
          ))
        (update_ne s.first list i m ne) (update_ne s.count list _ m ne) k)
  list_add-other i (x ∷ r) ys real_m real_list free h k =
      let t = set_owner s i list in
      let z_at : s.prev x ≡ last_of x r = Chain-prev s x r x h.shape.1 in
      let own_z : s.owner (s.prev x) ≡ list =
        ap s.owner z_at ∙ owner-last s list x r h.owned.0 h.owned.1 in
      let none_list : 0 ≢ list = λ e. real_list (sym e) in
      let i_x = ne_of_owner s 0 list i x none_list free h.owned.0 in
      let i_z = ne_of_owner s 0 list i (s.prev x) none_list free own_z in
      rw (add_behind s list i x h.shape.0 h.real.0 free) (
        Holds-frame s (set_count (link t i x) list (u32 (s.count list + 1))) m ys
          (λ p o.
            let away = ne_of_owner s 0 m i p real_m free o in
            let x_p = ne_of_owner s list m x p ne h.owned.0 o in
            let z_p = ne_of_owner s list m (s.prev x) p ne own_z o in
            (
              link_next t i x p i_x i_z
                  ∙ (update_ne (update s.next (s.prev x) i) i x p away
                      ∙ update_ne s.next (s.prev x) i p z_p),
              link_prev t i x p i_x i_z
                  ∙ (update_ne (update s.prev i (s.prev x)) x i p x_p
                      ∙ update_ne s.prev i (s.prev x) p away),
              link-owner t i x p ∙ update_ne s.owner i list p away,
            ))
          (link-first t i x m) (update_ne (link t i x).count list _ m ne ∙ link-count t i x m) k)

  pub list_remove-other :
      (i : ℕ) (before zs ys : List ℕ)
      → Holds s list (before ++ (i ∷ zs))
      → Holds s m ys
      → Holds (list_remove s i) m ys
  unfolding list_remove unlink
  list_remove-other i before zs ys h k =
      let (own_before, own) = All-split _ before (i ∷ zs) h.owned in
      let (own_n, own_p) = neighbours s list i before zs h in
      let (f, e, kept) = advance-keeps s i in
      rw (e, own.0)
        (Holds-frame s _ m ys
          (λ p o.
            let n_p = ne_of_owner s list m (s.next i) p ne own_n o in
            let p_p = ne_of_owner s list m (s.prev i) p ne own_p o in
            (
              update_ne s.next (update s.prev (s.next i) (s.prev i) i) _ p
                  (λ q. p_p (sym (seam s i) ∙ q)),
              update_ne s.prev (s.next i) (s.prev i) p n_p,
              refl,
            ))
          (kept m (rw own.0 ne)) (update_ne s.count list _ m ne) k)

-- The item keeps the pointer to the list that it has left, so that list_add leaves it alone from then on.
pub list_add-list_remove_ignored :
    (s : Links) (i list : ℕ) → s.owner i ≢ 0 → list_add (list_remove s i) list i ≡ list_remove s i
unfolding list_add list_remove unlink
list_add-list_remove_ignored s i list in_list =
    let (f, e, _) = advance-keeps s i in
    let t : (s.owner i == 0) ≡ false = ground arith in rw (e, t) refl
