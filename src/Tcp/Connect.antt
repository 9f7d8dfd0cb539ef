-- ===== src/Tcp/Connect.antt =====
-- Finding and making connections in kernel/src/net/tcp.c.
use nocturne_os_base.Prelude.{
  ℕ, zero, suc, ◌+◌, ◌^◌, ◌<◌, true, false, none, some, List, [], ◌∷◌, get_or, set, length, u16,
  ◌≡◌, ◌≢◌, refl, arith, ap, ◌∙◌, sym, inl, inr, Bool-cases, get_or-set_self, get_or-set_ne, ◌⊎◌,
  Option-cases,
}
use nocturne_os_base.Tcp.{
  TcpConnection, no_connection, tcp_created, connects, tcp_find_connection, is_free, free_index,
  tcp_new_connection, is_none,
}

-- The entry that is found connects the address and the port.
pub find-connects :
    (cs : List TcpConnection) (address port k i : ℕ)
    → tcp_find_connection cs address port k ≡ some i
    → (j : ℕ) × (i ≡ k + j)
      × (j < length cs)
      × (connects (get_or cs j no_connection) address port ≡ true)
unfolding tcp_find_connection
find-connects [] address port k i found = absurd (ground (arith, found))
find-connects (c ∷ cs) address port k i found = elim (Bool-cases (connects c address port)) [
  | inl here ↦ (0, ground (arith, found, here), omega arith, here)
  | inr other ↦
      let (j, at, lt, connected) =
        find-connects cs address port (k + 1) i (ground (arith, found, other)) in
      (suc j, omega (arith, at), omega arith, connected)
]

-- The entry that is found may be changed as long as it connects them.
pub find-set :
    (cs : List TcpConnection) (address port k j : ℕ) (c' : TcpConnection)
    → tcp_find_connection cs address port k ≡ some (k + j)
    → connects c' address port ≡ true
    → tcp_find_connection (set cs j c') address port k ≡ some (k + j)
unfolding tcp_find_connection
find-set [] address port k j c' found connected = absurd (ground (arith, found))
find-set (c ∷ cs) address port k zero c' found connected =
    let same : k + 0 ≡ k = omega arith in ground (arith, connected, same)
find-set (c ∷ cs) address port k (suc j) c' found connected =
    let shift : k + suc j ≡ k + 1 + j = omega arith in
    elim (Bool-cases (connects c address port)) [
      | inl here ↦ absurd (ground (arith, found, here))
      | inr other ↦
          let later : tcp_find_connection cs address port (k + 1) ≡ some (k + suc j) =
            ground (arith, found, other) in
          rw other (
            find-set cs address port (k + 1) j c' (later ∙ ap some shift) connected
            ∙ ap some (sym shift))
    ]

free-index :
    (cs : List TcpConnection) (k i : ℕ)
    → free_index cs k ≡ some i
    → (j : ℕ) × (i ≡ k + j) × (j < length cs)
unfolding free_index
free-index [] k i found = absurd (ground (arith, found))
free-index (c ∷ cs) k i found = elim (Bool-cases (is_free c)) [
  | inl here ↦ (0, ground (arith, found, here), omega arith)
  | inr other ↦
      let (j, at, lt) = free-index cs (k + 1) i (ground (arith, found, other)) in
      (suc j, omega (arith, at), omega arith)
]

-- An entry put anywhere is found if nothing was.
find-new :
    (cs : List TcpConnection) (address port k j : ℕ) (c' : TcpConnection)
    → tcp_find_connection cs address port k ≡ none
    → j < length cs
    → connects c' address port ≡ true
    → tcp_find_connection (set cs j c') address port k ≡ some (k + j)
unfolding tcp_find_connection
find-new [] address port k j c' absent lt connected = absurd (omega arith)
find-new (c ∷ cs) address port k zero c' absent lt connected =
    let same : k + 0 ≡ k = omega arith in ground (arith, connected, same)
find-new (c ∷ cs) address port k (suc j) c' absent lt connected =
    let shift : k + 1 + j ≡ k + suc j = omega arith in
    elim (Bool-cases (connects c address port)) [
      | inl here ↦ absurd (ground (arith, absent, here))
      | inr other ↦
          let later : tcp_find_connection cs address port (k + 1) ≡ none =
            ground (arith, absent, other) in
          rw other
            (find-new cs address port (k + 1) j c' later (omega arith) connected ∙ ap some shift)
    ]

-- What a new connection is.
abbrev pub opened_connection : TcpConnection → ℕ → ℕ → ℕ → ℕ → TcpConnection
opened_connection old card address port seq_nr = record old {
  dest_ip_addr = address;
  source_port = u16 port;
  status = tcp_created;
  seq = seq_nr;
  card = card;
}

pub tcp_new_connection_full :
    (card address port seq_nr : ℕ) (cs : List TcpConnection)
    → free_index cs 0 ≡ none
    → tcp_new_connection card address port seq_nr cs ≡ (false, cs)
unfolding tcp_new_connection
tcp_new_connection_full card address port seq_nr cs full = rw (full, tcp_new_connection) refl

-- `tcp_new_connection` for an address and a port that have none: if an entry is free, the call succeeds, the first free entry is the new
-- connection, the search for the address and the port finds it, and the other
-- entries stay. If none is free, it fails and changes nothing.
pub tcp_new_connection-find :
    (card address port seq_nr : ℕ) (cs : List TcpConnection)
    → port < 2 ^ 16
    → tcp_find_connection cs address port 0 ≡ none
    → ((tcp_new_connection card address port seq_nr cs ≡ (false, cs)) × (free_index cs 0 ≡ none))
      ⊎ ((i : ℕ) × (cs' : List TcpConnection) × (tcp_new_connection card address port seq_nr cs
            ≡ (true, cs'))
          × (i < length cs)
          × (tcp_find_connection cs' address port 0 ≡ some i)
          × (get_or cs' i no_connection
              ≡ opened_connection (get_or cs i no_connection) card address port seq_nr)
          × ((j : ℕ) → j ≢ i → get_or cs' j no_connection ≡ get_or cs j no_connection))
unfolding tcp_new_connection connects is_none
tcp_new_connection-find card address port seq_nr cs small absent =
    elim (Option-cases (free_index cs 0)) [
      | inl full ↦ inl (tcp_new_connection_full card address port seq_nr cs full, full)
      | inr (i, free) ↦
          let (j, at, lt) = free-index cs 0 i free in
          let inside : i < length cs = omega (arith, at) in
          let c = opened_connection (get_or cs i no_connection) card address port seq_nr in
          inr (
            i,
            set cs i c,
            rw (free, tcp_new_connection) refl,
            inside,
            find-new cs address port 0 i c absent inside (ground arith) ∙ ap some (omega arith),
            get_or-set_self cs i c no_connection inside,
            λ j' ne. get_or-set_ne cs i j' c no_connection (λ e. ne (sym e)),
          )
    ]
