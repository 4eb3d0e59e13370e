-- ===== src/NetworkAddress/Ownership.antt =====
-- include/rtpmidid/networkaddress.hpp: who frees the memory of an address.
use rtpmidid.Common.{
  ℕ, zero, suc, ◌+◌, ◌<◌, ◌≤◌, ◌≡◌, refl, ap, List, [], ◌∷◌, length, get_or, Bool, true, false,
  ◌==◌, ==_refl, ==→eq, Bool-cases, inl, inr, All, Option, none, some, if◌then◌else◌, arith,
}
use rtpmidid.NetworkAddress.{
  SockAddr, Pointer, null, block, outside, NetworkAddress, Store, no_address, load, without_block,
  is_loaded, free, release, assign, content, allocated, from_fd, wrap, move_from, assigned, move_to,
  duplicated, dup, popped, leave,
}

abbrev is_block : ℕ → Pointer → Bool
is_block b null = false
is_block b (block c) = b == c
is_block b (outside a) = false

-- Whether an address owns a block, as a number.
abbrev pub one : ℕ → NetworkAddress → ℕ
one b v = if v.managed then (if is_block b v.addr then 1 else 0) else 0

abbrev pub owners : ℕ → List NetworkAddress → ℕ
owners b [] = 0
owners b (v ∷ vs) = one b v + owners b vs

-- How often a block is allocated.
abbrev pub live : ℕ → List (ℕ × SockAddr) → ℕ
live b [] = 0
live b (x ∷ xs) = (if b == x.0 then 1 else 0) + live b xs

-- An address that owns something owns a block of ours, or nothing.
abbrev Proper : Bool → Pointer → Type 0
Proper false p = Unit
Proper true null = Unit
Proper true (block b) = Unit
Proper true (outside a) = true ≡ false

abbrev AreProper : List NetworkAddress → Type 0
AreProper = All (λ v. Proper v.managed v.addr)

-- Each block that is allocated has exactly one owner in scope, and no owner has a block that is not.
pub record IsOwned (s : Store) : Type 0 where
  pub each : (b : ℕ) → owners b s.scope ≡ live b s.heap
  pub single : (b : ℕ) → live b s.heap ≤ 1
  pub fresh : (b : ℕ) → s.next ≤ b → live b s.heap ≡ 0
  pub proper : AreProper s.scope

owners-assign :
    (b i : ℕ) (v : NetworkAddress) (vs : List NetworkAddress)
    → i < length vs
    → owners b (assign i v vs) + one b (get_or no_address vs i) ≡ owners b vs + one b v
unfolding assign
owners-assign b i v [] h = absurd (omega arith)
owners-assign b zero v (x ∷ vs) h = omega arith
owners-assign b (suc i) v (x ∷ vs) h = omega (arith, owners-assign b i v vs (omega arith))

owners-get_or : (b i : ℕ) (vs : List NetworkAddress) → one b (get_or no_address vs i) ≤ owners b vs
owners-get_or b i [] = omega arith
owners-get_or b zero (x ∷ vs) = omega arith
owners-get_or b (suc i) (x ∷ vs) = omega (arith, owners-get_or b i vs)

AreProper-assign :
    (i : ℕ) (v : NetworkAddress) (vs : List NetworkAddress)
    → Proper v.managed v.addr
    → AreProper vs
    → AreProper (assign i v vs)
unfolding assign
AreProper-assign i v [] h p = tt
AreProper-assign zero v (x ∷ vs) h p = (h, p.1)
AreProper-assign (suc i) v (x ∷ vs) h p = (p.0, AreProper-assign i v vs h p.1)

get_or-Proper :
    (i : ℕ) (vs : List NetworkAddress)
    → AreProper vs
    → Proper (get_or no_address vs i).managed (get_or no_address vs i).addr
get_or-Proper i [] p = tt
get_or-Proper zero (x ∷ vs) p = p.0
get_or-Proper (suc i) (x ∷ vs) p = get_or-Proper i vs p.1

load-live : (b : ℕ) (heap : List (ℕ × SockAddr)) → 1 ≤ live b heap → is_loaded (load b heap) ≡ true
unfolding load
load-live b [] h = absurd (omega arith)
load-live b (x ∷ xs) h = elim (Bool-cases (x.0 == b)) [
  | inl y ↦ rw y
  | inr y ↦ rw y (load-live b xs (ground (arith, y)))
]

live-without_block :
    (b c : ℕ) (heap : List (ℕ × SockAddr))
    → 1 ≤ live b heap
    → live c (without_block b heap) + (if c == b then 1 else 0) ≡ live c heap
unfolding without_block
live-without_block b c [] h = absurd (omega arith)
live-without_block b c (x ∷ xs) h = elim (Bool-cases (x.0 == b)) [
  | inl y ↦ rw (y, ==→eq x.0 b y) (omega arith)
  | inr y ↦ rw y (omega (arith, live-without_block b c xs (ground (arith, y))))
]

-- What an address owns can be freed, and is then no longer allocated.
abbrev Freed : NetworkAddress → List (ℕ × SockAddr) → Type 0
Freed v heap =
    (heap' : List (ℕ × SockAddr)) × (release v heap ≡ some heap')
    × ((c : ℕ) → live c heap' + one c v ≡ live c heap)

release-Freed :
    (managed : Bool) (addr : Pointer) (heap : List (ℕ × SockAddr))
    → Proper managed addr
    → let v : NetworkAddress = record { addr = addr; managed = managed } in
      ((c : ℕ) → one c v ≤ live c heap) → Freed v heap
unfolding release free
release-Freed false addr heap p h = (heap, refl, λ c. omega arith)
release-Freed true null heap p h = (heap, refl, λ c. omega arith)
release-Freed true (outside a) heap p h = absurd (cc p)
release-Freed true (block b) heap p h =
    let own : (if b == b then 1 else 0) ≤ live b heap = h b in
    let there : 1 ≤ live b heap = rw (==_refl b) at own in
    (without_block b heap, rw (load-live b heap there), λ c. live-without_block b c heap there)

pub allocated-IsOwned : (a : SockAddr) (s : Store) → IsOwned s → IsOwned (allocated a s)
allocated-IsOwned a s v = record {
  each = λ b. omega (arith, v.each b);
  single = λ b. elim (Bool-cases (b == s.next)) [
    | inl y ↦ rw y (omega (arith, v.fresh b (omega (arith, ==→eq b s.next y))))
    | inr y ↦ rw y (omega (arith, v.single b))
  ];
  fresh = λ b h. elim (Bool-cases (b == s.next)) [
    | inl y ↦ absurd (omega (arith, ==→eq b s.next y, h))
    | inr y ↦ rw y (omega (arith, v.fresh b (omega (arith, h))))
  ];
  proper = (tt, v.proper);
}

move_from-IsOwned : (i : ℕ) (s : Store) → i < length s.scope → IsOwned s → IsOwned (move_from i s)
unfolding move_from
move_from-IsOwned i s h v = record {
  each = λ b. omega (arith, v.each b, owners-assign b i no_address s.scope h);
  single = v.single;
  fresh = v.fresh;
  proper = (get_or-Proper i s.scope v.proper, AreProper-assign i no_address s.scope tt v.proper);
}

length-assign :
    (i : ℕ) (v : NetworkAddress) (vs : List NetworkAddress) → length (assign i v vs) ≡ length vs
unfolding assign
length-assign i v [] = refl
length-assign zero v (x ∷ vs) = refl
length-assign (suc i) v (x ∷ vs) = ap suc (length-assign i v vs)

-- The value that is moved stands at its own place still, when the other one has it already.
get_or-assign :
    (i j : ℕ) (vs : List NetworkAddress)
    → let v = get_or no_address vs j in get_or no_address (assign i v vs) j ≡ v
unfolding assign
get_or-assign i j [] = refl
get_or-assign zero zero (x ∷ vs) = refl
get_or-assign zero (suc j) (x ∷ vs) = refl
get_or-assign (suc i) zero (x ∷ vs) = refl
get_or-assign (suc i) (suc j) (x ∷ vs) = get_or-assign i j vs

scope-Freed :
    (v : NetworkAddress) (s : Store)
    → IsOwned s
    → Proper v.managed v.addr
    → ((c : ℕ) → one c v ≤ owners c s.scope)
    → Freed v s.heap
scope-Freed v s o p h = release-Freed v.managed v.addr s.heap p (λ c. omega (arith, h c, o.each c))

move_to-IsOwned :
    (i j : ℕ) (s : Store)
    → i < length s.scope
    → j < length s.scope
    → IsOwned s
    → (s' : Store) × (move_to i j s ≡ some s') × IsOwned s'
unfolding move_to
move_to-IsOwned i j s hi hj o =
    let old = get_or no_address s.scope i in
    let v = get_or no_address s.scope j in
    let mid = assign i v s.scope in
    let (heap, e, less) =
      scope-Freed old s o (get_or-Proper i s.scope o.proper) (λ c. owners-get_or c i s.scope) in
    let s' : Store = record s { heap = heap; scope = assign j no_address mid } in
    let count = λ (b : ℕ). owners-assign b j no_address mid (rw (length-assign i v s.scope) hj) in
    (
      s',
      ap (assigned i j s) e,
      record {
        each = λ b. omega (
          arith,
          o.each b,
          less b,
          owners-assign b i v s.scope hi,
          count b,
          ap (one b) (get_or-assign i j s.scope),
        );
        single = λ b. omega (arith, o.single b, less b);
        fresh = λ b h. omega (arith, o.fresh b h, less b);
        proper =
            AreProper-assign j no_address mid tt
              (AreProper-assign i v s.scope (get_or-Proper j s.scope o.proper) o.proper);
      },
    )

leave_scope :
    (v : NetworkAddress) (rest : List NetworkAddress) (heap : List (ℕ × SockAddr)) (next : ℕ)
    → let s : Store = record { heap = heap; next = next; scope = v ∷ rest } in
      IsOwned s → (s' : Store) × (leave s ≡ some s') × IsOwned s' × (s'.scope ≡ rest)
unfolding leave
leave_scope v rest heap next o =
    let s : Store = record { heap = heap; next = next; scope = v ∷ rest } in
    let (freed, e, less) = scope-Freed v s o o.proper.0 (λ c. omega arith) in
    let s' : Store = record { heap = freed; next = next; scope = rest } in
    (
      s',
      ap (popped s rest) e,
      record {
        each = λ b. omega (arith, o.each b, less b);
        single = λ b. omega (arith, o.single b, less b);
        fresh = λ b h. omega (arith, o.fresh b h, less b);
        proper = o.proper.1;
      },
      refl,
    )

-- What a program does with addresses; the moves are of variables in scope.
pub data Use : Type 0 where
  reads_fd wraps : SockAddr → Use
  moves dups : ℕ → Use
  assigns : ℕ → ℕ → Use
  leaves : Use

unfoldable pub perform : Use → Store → Option Store
unfolding from_fd wrap move_from move_to dup leave
perform (reads_fd a) s = some (from_fd (some a) s)
perform (wraps a) s = some (wrap a s)
perform (moves i) s = some (move_from i s)
perform (dups i) s = dup i s
perform (assigns i j) s = move_to i j s
perform leaves s = leave s

-- Variables that are used are in scope, and a copy is made of what points to something.
abbrev pub IsAllowed : Use → Store → Type 0
IsAllowed (reads_fd a) s = Unit
IsAllowed (wraps a) s = Unit
IsAllowed (moves i) s = i < length s.scope
IsAllowed (dups i) s = is_loaded (content (get_or no_address s.scope i).addr s.heap) ≡ true
IsAllowed (assigns i j) s = (i < length s.scope) × (j < length s.scope)
IsAllowed leaves s = Unit

duplicated-IsOwned :
    (s : Store) (o : Option SockAddr)
    → is_loaded o ≡ true
    → IsOwned s
    → (s' : Store) × (duplicated s o ≡ some s') × IsOwned s'
duplicated-IsOwned s none h v = absurd (cc h)
duplicated-IsOwned s (some a) h v = (allocated a s, refl, allocated-IsOwned a s v)

leave-IsOwned :
    (scope : List NetworkAddress) (heap : List (ℕ × SockAddr)) (next : ℕ)
    → let s : Store = record { heap = heap; next = next; scope = scope } in
      IsOwned s → (s' : Store) × (leave s ≡ some s') × IsOwned s'
unfolding leave
leave-IsOwned [] heap next v = (record { heap = heap; next = next; scope = [] }, refl, v)
leave-IsOwned (x ∷ rest) heap next v =
    let (s', e, o, same) = leave_scope x rest heap next v in (s', e, o)

-- Whatever is done with addresses in scope, it frees nothing that is not allocated, and keeps this:
-- each block that is allocated has exactly one owner in scope, and no owner has a block that is not
-- allocated. A variable that is moved to itself included; a failing getsockname left out.
pub perform-IsOwned :
    (u : Use) (s : Store)
    → IsOwned s
    → IsAllowed u s
    → (s' : Store) × (perform u s ≡ some s') × IsOwned s'
unfolding perform from_fd wrap dup
perform-IsOwned (reads_fd a) s v h = (allocated a s, refl, allocated-IsOwned a s v)
perform-IsOwned (wraps a) s v h = (
  wrap a s,
  refl,
  record {
    each = λ b. omega (arith, v.each b);
    single = v.single;
    fresh = v.fresh;
    proper = (tt, v.proper);
  },
)
perform-IsOwned (moves i) s v h = (move_from i s, refl, move_from-IsOwned i s h v)
perform-IsOwned (dups i) s v h =
    duplicated-IsOwned s (content (get_or no_address s.scope i).addr s.heap) h v
perform-IsOwned (assigns i j) s v h = move_to-IsOwned i j s h.0 h.1 v
perform-IsOwned leaves s v h = leave-IsOwned s.scope s.heap s.next v
