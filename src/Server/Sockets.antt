-- ===== src/Server/Sockets.antt =====
-- The table of sockets of a stream server: lo_server_add_socket and lo_server_del_socket of
-- src/server.c.
use liblo.Base.{
  ℕ, zero, suc, ◌+◌, ◌*◌, ◌<◌, ◌≤◌, ◌≡◌, refl, Bool, Option, none, some, List, [], ◌∷◌, ◌++◌,
  length, get_elem?, ltb, leb, ◌==◌, if◌then◌else◌, arith,
}
use liblo.Address.State.{Address, lo_address_copy}
use liblo.Stream.Receive.{Context, cleanup_context}

-- `sockets` are the descriptors; `contexts` and `sources` are the arrays, the first by the place
-- in `sockets`, the second by the descriptor, of which `none` has been cleared.
pub record Sockets : Type 0 where
  pub sockets : List ℕ
  pub sockets_alloc : ℕ
  pub contexts : ℕ → Context
  pub sources : ℕ → Option Address
  pub sources_len : ℕ

-- The array of sources with room for `socket`.
unfoldable pub grow_sources : Sockets → ℕ → Sockets
grow_sources s socket =
    if leb s.sources_len socket
    then record s {
      sources = λ i. if leb s.sources_len i then none else s.sources i;
      sources_len = socket * 2;
    }
    else s

-- The arrays of sockets and contexts with room for one more; `none` if there is no memory.
unfoldable pub grow_sockets : Bool → Sockets → Option Sockets
grow_sockets realloc s =
    if ltb s.sockets_alloc (length s.sockets + 1)
    then (if realloc
        then some (record s {
          sockets_alloc = s.sockets_alloc * 2;
          contexts = λ i. if leb s.sockets_alloc i then cleanup_context else s.contexts i;
        })
        else none)
    else some s

-- The source of an accepted connection, in `accepted`, comes from the system.
unfoldable pub source_of : Option Address → Address → Address
source_of none accepted = accepted
source_of (some a) accepted = lo_address_copy a

-- The index of the socket, or `none` for -1.
unfoldable pub lo_server_add_socket :
    Bool → Sockets → ℕ → Option Address → Address → Option (ℕ × Sockets)
lo_server_add_socket realloc s socket a accepted = elim (grow_sockets realloc s) [
  | none ↦ none
  | some room ↦
      let grown = grow_sources (record room { sockets = room.sockets ++ socket ∷ [] }) socket in
      some (
        length room.sockets,
        record grown {
          sources = λ i. if i == socket then some (source_of a accepted) else grown.sources i;
        },
      )
]

-- The first index of a descriptor, or the length.
unfoldable pub find_socket : List ℕ → ℕ → ℕ
find_socket [] socket = 0
find_socket (fd ∷ sockets) socket =
    let rest = find_socket sockets socket in if fd == socket then 0 else suc rest

-- The loop that moves the sockets behind `index` down.
unfoldable pub remove_at : List ℕ → ℕ → List ℕ
remove_at [] index = []
remove_at (fd ∷ sockets) zero = sockets
remove_at (fd ∷ sockets) (suc index) = fd ∷ remove_at sockets index

unfoldable pub del_index : Sockets → ℕ → Sockets
del_index s index = elim (get_elem? s.sockets index) [
  | none ↦ s
  | some fd ↦ record s {
    sources = λ i. if i == fd then none else s.sources i;
    contexts = λ i. if i == index then cleanup_context else s.contexts i;
    sockets = remove_at s.sockets index;
  }
]

-- An index, or `none` for -1; a descriptor, or `none` for -1.
unfoldable pub lo_server_del_socket : Sockets → Option ℕ → Option ℕ → Sockets
lo_server_del_socket s (some index) socket = del_index s index
lo_server_del_socket s none (some socket) = del_index s (find_socket s.sockets socket)
lo_server_del_socket s none none = s

get_elem?-remove_at :
    (sockets : List ℕ) (index j : ℕ)
    → index ≤ j
    → get_elem? (remove_at sockets index) j ≡ get_elem? sockets (suc j)
unfolding remove_at
get_elem?-remove_at [] index j h = refl
get_elem?-remove_at (fd ∷ sockets) zero j h = refl
get_elem?-remove_at (fd ∷ sockets) (suc index) zero h = absurd (omega arith)
get_elem?-remove_at (fd ∷ sockets) (suc index) (suc j) h =
    get_elem?-remove_at sockets index j (omega arith)

get_elem?-some :
    (sockets : List ℕ) (index : ℕ)
    → index < length sockets
    → (fd : ℕ) × (get_elem? sockets index ≡ some fd)
get_elem?-some [] index h = absurd (omega arith)
get_elem?-some (fd ∷ sockets) zero h = (fd, refl)
get_elem?-some (fd ∷ sockets) (suc index) h = get_elem?-some sockets index (omega arith)

-- When lo_server_del_socket removes the socket at an index of the table, each socket behind it
-- moves down by one place, but no context moves: a place from the index on has afterwards the
-- socket that was behind it, with the context that it had itself or, at the index, a cleared one.
pub lo_server_del_socket_shift :
    (s : Sockets) (index j : ℕ) (socket : Option ℕ)
    → index < length s.sockets
    → index ≤ j
    → let s' = lo_server_del_socket s (some index) socket in
      (get_elem? s'.sockets j ≡ get_elem? s.sockets (suc j))
      × (s'.contexts j ≡ (if j == index then cleanup_context else s.contexts j))
unfolding lo_server_del_socket del_index
lo_server_del_socket_shift s index j socket within behind =
    let (fd, e) = get_elem?-some s.sockets index within in
    rw (e, del_index) (get_elem?-remove_at s.sockets index j behind, refl)
