-- ===== src/Fsm/Detach.antt =====
-- Taking the mounts of a disk out of the list, in kernel/src/fs/fsm.c.
use nocturne_os_base.Prelude.{
  ℕ, zero, suc, ◌+◌, ◌<◌, true, false, none, some, List, [], ◌∷◌, ◌++◌, if◌then◌else◌, length,
  get_elem?, take, drop, ◌≡◌, ◌≢◌, refl, arith, ap, ap₂, ◌∙◌, sym, inl, inr, Bool-cases, ret,
  length-append,
}
use nocturne_os_base.Fsm.{Name, same_name, FsmMount, detach_rounds, fsm_detach_fs}

-- The test of names is equality.
pub same_name_refl : (n : Name) → same_name n n ≡ true
unfolding same_name
same_name_refl [] = refl
same_name_refl (a ∷ n) = ground (arith, same_name_refl n)

pub same_name_sound : (m n : Name) → same_name m n ≡ true → m ≡ n
unfolding same_name
same_name_sound [] [] h = refl
same_name_sound [] (b ∷ n) h = absurd (ground (arith, h))
same_name_sound (a ∷ m) [] h = absurd (ground (arith, h))
same_name_sound (a ∷ m) (b ∷ n) h =
    let head : a ≡ b = ground (arith, h) in
    let tail : same_name m n ≡ true = ground (arith, h) in
    ap₂ (λ (x : ℕ) (xs : Name). x ∷ xs) head (same_name_sound m n tail)

pub same_name_ne : (m n : Name) → same_name m n ≡ false → m ≢ n
same_name_ne m n no_match e = ground (arith, ap (same_name m) e, same_name_refl m, no_match)

pub same_name-false : (m n : Name) → m ≢ n → same_name m n ≡ false
same_name-false m n ne = elim (Bool-cases (same_name m n)) [
  | inl same ↦ absurd (ne (same_name_sound m n same))
  | inr other ↦ other
]

-- The mounts of the other disks, in order.
abbrev pub others : Name → List FsmMount → List FsmMount
others disk_id [] = []
others disk_id (mount ∷ mounts) =
    let rest = others disk_id mounts in
    if same_name mount.diskman_disk_id disk_id then rest else mount ∷ rest

append_assoc : (xs ys zs : List FsmMount) → (xs ++ ys) ++ zs ≡ xs ++ (ys ++ zs)
append_assoc [] ys zs = refl
append_assoc (x ∷ xs) ys zs = ap (λ (ws : List FsmMount). x ∷ ws) (append_assoc xs ys zs)

get_elem?-append :
    (xs : List FsmMount) (m : FsmMount) (ys : List FsmMount)
    → get_elem? (xs ++ (m ∷ ys)) (length xs) ≡ some m
get_elem?-append [] m ys = refl
get_elem?-append (x ∷ xs) m ys = get_elem?-append xs m ys

get_elem?-end : (xs : List FsmMount) → get_elem? (xs ++ []) (length xs) ≡ none
get_elem?-end [] = refl
get_elem?-end (x ∷ xs) = get_elem?-end xs

drop-append :
    (xs : List FsmMount) (m : FsmMount) (ys : List FsmMount)
    → drop (suc (length xs)) (xs ++ (m ∷ ys)) ≡ ys
drop-append [] m ys = refl
drop-append (x ∷ xs) m ys = drop-append xs m ys

take-append : (xs ys : List FsmMount) → take (length xs) (xs ++ ys) ≡ xs
take-append [] ys = refl
take-append (x ∷ xs) ys = ap (λ (zs : List FsmMount). x ∷ zs) (take-append xs ys)

erase-append :
    (xs : List FsmMount) (m : FsmMount) (ys : List FsmMount)
    → take (length xs) (xs ++ (m ∷ ys)) ++ drop (length xs + 1) (xs ++ (m ∷ ys)) ≡ xs ++ ys
erase-append xs m ys =
    let next : length xs + 1 ≡ suc (length xs) = omega arith in
    ap₂ (λ (a b : List FsmMount). a ++ b) (take-append xs (m ∷ ys))
      (ap (λ (n : ℕ). drop n (xs ++ (m ∷ ys))) next ∙ drop-append xs m ys)

-- The loop with the mounts `xs` behind it and `ys` in front of it.
detach_rounds_lem :
    (fuel : ℕ) (disk_id : Name) (xs ys : List FsmMount)
    → length ys < fuel
    → detach_rounds fuel disk_id (length xs) (xs ++ ys) ≡ ret (xs ++ others disk_id ys)
unfolding detach_rounds
detach_rounds_lem zero disk_id xs ys enough = absurd (omega arith)
detach_rounds_lem (suc fuel) disk_id xs [] enough = ground (arith, get_elem?-end xs)
detach_rounds_lem (suc fuel) disk_id xs (m ∷ ys) enough =
    rw (get_elem?-append xs m ys, detach_rounds)
      (elim (Bool-cases (same_name m.diskman_disk_id disk_id)) [
        | inl same ↦
            rw same (rw (erase-append xs m ys) (detach_rounds_lem fuel disk_id xs ys (omega arith)))
        | inr other ↦
            let whole : (zs : List FsmMount) → (xs ++ (m ∷ [])) ++ zs ≡ xs ++ (m ∷ zs) =
              λ zs. append_assoc xs (m ∷ []) zs in
            let next : length (xs ++ (m ∷ [])) ≡ length xs + 1 = length-append xs (m ∷ []) in
            let rest = detach_rounds_lem fuel disk_id (xs ++ (m ∷ [])) ys (omega arith) in
            rw other (
              ap₂ (λ (n : ℕ) (zs : List FsmMount). detach_rounds fuel disk_id n zs) (sym next)
                (sym (whole ys))
              ∙ rest
              ∙ ap ret (whole (others disk_id ys)))
      ])

-- `fsm_detach_fs` ends within one round for each mount and one more, and leaves the mounts of the other disks,
-- in order.
pub fsm_detach_fs_lem :
    (mounts : List FsmMount) (disk_id : Name)
    → fsm_detach_fs mounts disk_id ≡ ret (others disk_id mounts)
unfolding fsm_detach_fs
fsm_detach_fs_lem mounts disk_id =
    detach_rounds_lem (suc (length mounts)) disk_id [] mounts (omega arith)
