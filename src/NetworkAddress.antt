-- ===== src/NetworkAddress.antt =====
-- include/rtpmidid/networkaddress.hpp and lib/networkaddress.cpp: addresses of sockets, some of which
-- own the memory that they point to. What the system answers is an argument.
pub mod Ownership
mod Examples
use rtpmidid.Common.{
  ℕ, zero, suc, ◌+◌, ◌%◌, ◌^◌, List, [], ◌∷◌, ◌++◌, length, get_or, Bool, true, false, ◌==◌, ltb,
  ◌&&◌, if◌then◌else◌, Option, none, some,
}
use rtpmidid.Text.{Text, codes, to_string}

-- `sockaddr`, of one of the two families: the text of its address, and its port.
pub record SockAddr : Type 0 where
  pub is_inet : Bool
  pub ip : Text
  pub port : ℕ

-- A pointer to nothing, to memory that was allocated here, or to memory of someone else.
pub data Pointer : Type 0 where
  null : Pointer
  block : ℕ → Pointer
  outside : SockAddr → Pointer

-- `network_address_t`
pub record NetworkAddress : Type 0 where
  pub addr : Pointer
  pub managed : Bool

-- The blocks that are allocated, the next one, and the addresses in scope.
pub record Store : Type 0 where
  pub heap : List (ℕ × SockAddr)
  pub next : ℕ
  pub scope : List NetworkAddress

abbrev pub no_address : NetworkAddress
no_address = record { addr = null; managed = false }

unfoldable pub load : ℕ → List (ℕ × SockAddr) → Option SockAddr
load b [] = none
load b (x ∷ xs) = if x.0 == b then some x.1 else load b xs

unfoldable pub without_block : ℕ → List (ℕ × SockAddr) → List (ℕ × SockAddr)
without_block b [] = []
without_block b (x ∷ xs) = if x.0 == b then xs else x ∷ without_block b xs

abbrev pub is_loaded : Option SockAddr → Bool
is_loaded none = false
is_loaded (some a) = true

-- `delete` of what an address points to; `none` where that is not allocated.
unfoldable pub free : Pointer → List (ℕ × SockAddr) → Option (List (ℕ × SockAddr))
unfolding load without_block
free null heap = some heap
free (block b) heap = if is_loaded (load b heap) then some (without_block b heap) else none
free (outside a) heap = none

-- What the destructor and the assignment do to what an address owns.
unfoldable pub release : NetworkAddress → List (ℕ × SockAddr) → Option (List (ℕ × SockAddr))
unfolding free
release v heap = if v.managed then free v.addr heap else some heap

-- A value is put in place of a variable.
unfoldable pub assign : ℕ → NetworkAddress → List NetworkAddress → List NetworkAddress
assign i v [] = []
assign zero v (x ∷ xs) = v ∷ xs
assign (suc i) v (x ∷ xs) = x ∷ assign i v xs

-- What a pointer points to; `none` where nothing is.
unfoldable pub content : Pointer → List (ℕ × SockAddr) → Option SockAddr
unfolding load
content null heap = none
content (block b) heap = load b heap
content (outside a) heap = some a

abbrev pub allocated : SockAddr → Store → Store
allocated a s = record {
  heap = (s.next, a) ∷ s.heap;
  next = s.next + 1;
  scope = record { addr = block s.next; managed = true } ∷ s.scope;
}

-- The constructor from a file descriptor, for what `getsockname` answers. Where that fails, the
-- exception leaves the memory that was allocated.
unfoldable pub from_fd : Option SockAddr → Store → Store
from_fd (some a) s = allocated a s
from_fd none s = record s {
  heap = (s.next, record { is_inet = true; ip = []; port = 0 }) ∷ s.heap;
  next = s.next + 1;
}

unfoldable pub wrap : SockAddr → Store → Store
wrap a s = record s { scope = record { addr = outside a; managed = false } ∷ s.scope }

-- The constructor that moves.
unfoldable pub move_from : ℕ → Store → Store
unfolding assign
move_from i s = record s { scope = get_or no_address s.scope i ∷ assign i no_address s.scope }

abbrev pub assigned : ℕ → ℕ → Store → Option (List (ℕ × SockAddr)) → Option Store
assigned i j s none = none
assigned i j s (some heap) = some (record s {
  heap = heap;
  scope = assign j no_address (assign i (get_or no_address s.scope j) s.scope);
})

-- The assignment that moves.
unfoldable pub move_to : ℕ → ℕ → Store → Option Store
unfolding assign release
move_to i j s = assigned i j s (release (get_or no_address s.scope i) s.heap)

abbrev pub duplicated : Store → Option SockAddr → Option Store
duplicated s none = none
duplicated s (some a) = some (allocated a s)

unfoldable pub dup : ℕ → Store → Option Store
unfolding content
dup i s = duplicated s (content (get_or no_address s.scope i).addr s.heap)

-- The end of the scope of the variable that was made last.
abbrev pub popped : Store → List NetworkAddress → Option (List (ℕ × SockAddr)) → Option Store
popped s rest none = none
popped s rest (some heap) = some (record s { heap = heap; scope = rest })

unfoldable pub leave : Store → Option Store
unfolding release
leave s = elim s.scope [ [] ↦ some s | v ∷ rest ↦ popped s rest (release v s.heap) ]

-- `port`, `ip` and `to_string`
unfoldable pub port : NetworkAddress → Store → ℕ
unfolding content
port v s = elim (content v.addr s.heap) [ none ↦ 0 | some a ↦ a.port % 2 ^ 16 ]

unfoldable pub ip : NetworkAddress → Store → Text
unfolding content
ip v s = elim (content v.addr s.heap) [ none ↦ codes "null" | some a ↦ a.ip ]

unfoldable pub address_text : NetworkAddress → Store → Text
unfolding content
address_text v s = elim (content v.addr s.heap) [
  | none ↦ codes "null"
  | some a ↦ a.ip ++ (codes ":" ++ to_string (a.port % 2 ^ 16))
]

abbrev pub store_port : ℕ → ℕ → List (ℕ × SockAddr) → List (ℕ × SockAddr)
store_port b n [] = []
store_port b n (x ∷ xs) =
    if x.0 == b then (b, record x.1 { port = n % 2 ^ 16 }) ∷ xs else x ∷ store_port b n xs

-- `set_port`; `none` is the assertion that only memory of one's own is changed.
unfoldable pub set_port : ℕ → ℕ → Store → Option Store
set_port i n s =
    let v = get_or no_address s.scope i in
    elim v.addr [
      | null ↦ some s
      | block b ↦ if v.managed then some (record s { heap = store_port b n s.heap }) else none
      | outside a ↦ none
    ]

-- `resolve_loop`, over what `getaddrinfo` answers: whether `cb` takes one, and those it is given.
abbrev pub and_given : SockAddr → Bool × List SockAddr → Bool × List SockAddr
and_given a (found, given) = (found, a ∷ given)

unfoldable pub resolve_loop : (SockAddr → Bool) → Option (List SockAddr) → Bool × List SockAddr
resolve_loop cb none = (false, [])
resolve_loop cb (some []) = (false, [])
resolve_loop cb (some (a ∷ others)) =
    let rest = resolve_loop cb (some others) in if cb a then (true, a ∷ []) else and_given a rest
