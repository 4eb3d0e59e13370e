-- ===== src/NetworkAddress/Examples.antt =====
-- Two addresses of sockets, of which one is moved to the other.
use rtpmidid.Common.{◌≡◌, refl, [], ◌∷◌, true, some, none, arith}
use rtpmidid.Text.{codes, to_string}
use rtpmidid.NetworkAddress.{SockAddr, Store, block, no_address, from_fd, move_to, address_text}
use rtpmidid.NetworkAddress.Ownership.{
  IsOwned, allocated-IsOwned, perform, assigns, perform-IsOwned,
}

abbrev local : SockAddr
local = record { is_inet = true; ip = codes "10.0.0.1"; port = 5004 }

abbrev nothing : Store
nothing = record { heap = []; next = 0; scope = [] }

nothing-IsOwned : IsOwned nothing
nothing-IsOwned = record {
  each = λ b. refl;
  single = λ b. omega arith;
  fresh = λ b h. refl;
  proper = tt;
}

abbrev two : Store
two = from_fd (some local) (from_fd (some local) nothing)

two-IsOwned : IsOwned two
unfolding from_fd
two-IsOwned =
    allocated-IsOwned local (from_fd (some local) nothing)
      (allocated-IsOwned local nothing nothing-IsOwned)

perform-IsOwned_example : (s' : Store) × (perform (assigns 1 0) two ≡ some s') × IsOwned s'
unfolding from_fd
perform-IsOwned_example = perform-IsOwned (assigns 1 0) two two-IsOwned (omega arith, omega arith)

-- The block of the second variable is freed, and the first one points to nothing.
moved :
    move_to 1 0 two
    ≡ some (record {
      heap = (1, local) ∷ [];
      next = 2;
      scope = no_address ∷ record { addr = block 1; managed = true } ∷ [];
    })
unfolding move_to from_fd
moved = refl

-- One that is moved to itself is lost.
moved_to_itself :
    move_to 0 0 (from_fd (some local) nothing)
    ≡ some (record { heap = []; next = 1; scope = no_address ∷ [] })
unfolding move_to from_fd
moved_to_itself = refl

-- The memory of an address whose socket has no name is never freed.
leaked : (from_fd none nothing).scope ≡ []
unfolding from_fd
leaked = refl

text :
    address_text (record { addr = block 0; managed = true }) (from_fd (some local) nothing)
    ≡ codes "10.0.0.1:5004"
unfolding address_text from_fd to_string
text = refl
