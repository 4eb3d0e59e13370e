-- ===== src/Mdns/Announcing.antt =====
-- lib/mdns_rtpmidi.cpp, announce_all: what Avahi is told to publish.
use rtpmidid.Common.{
  ℕ, ◌+◌, ◌≡◌, refl, ap, ◌∙◌, List, [], ◌∷◌, ◌++◌, Bool, true, false, append_assoc, append-nil,
  some, if◌then◌else◌,
}
use rtpmidid.Text.{Text}
use rtpmidid.Mdns.{
  Mdns, Announcement, Action, resets_group, commits_group, adds_service, Answers, suffix_in,
  announce_suffix_str, add_services, announced, announce_with, announce_all,
}

-- The services of some announcements, named with a suffix, and what Avahi is asked for them.
abbrev pub services : Text → List Announcement → List (Text × ℕ)
services suffix [] = []
services suffix (e ∷ es) = (e.name ++ suffix, e.port) ∷ services suffix es

abbrev pub additions : List (Text × ℕ) → List Action
additions [] = []
additions (s ∷ ss) = adds_service s.0 s.1 ∷ additions ss

-- Avahi takes each service beside those before it.
abbrev pub TakesAll :
    (List (Text × ℕ) → Text → ℕ → Bool) → List (Text × ℕ) → List (Text × ℕ) → Type 0
TakesAll takes before [] = Unit
TakesAll takes before (s ∷ ss) =
    (takes before s.0 s.1 ≡ true) × TakesAll takes (before ++ s ∷ []) ss

add_services_all :
    (takes : List (Text × ℕ) → Text → ℕ → Bool) (suffix : Text) (before : List (Text × ℕ))
    (es : List Announcement)
    → TakesAll takes before (services suffix es)
    → add_services takes suffix before es ≡ (additions (services suffix es), true)
unfolding add_services
add_services_all takes suffix before [] t = refl
add_services_all takes suffix before (e ∷ es) t =
    rw (t.0, add_services_all takes suffix (before ++ (e.name ++ suffix, e.port) ∷ []) es t.1)

services-append :
    (suffix : Text) (xs ys : List Announcement)
    → services suffix (xs ++ ys) ≡ services suffix xs ++ services suffix ys
services-append suffix [] ys = refl
services-append suffix (x ∷ xs) ys =
    ap (◌∷◌ (x.name ++ suffix, x.port)) (services-append suffix xs ys)

add_services_refused :
    (takes : List (Text × ℕ) → Text → ℕ → Bool) (suffix : Text) (before : List (Text × ℕ))
    (front rest : List Announcement) (e : Announcement)
    → TakesAll takes before (services suffix front)
    → takes (before ++ services suffix front) (e.name ++ suffix) e.port ≡ false
    → add_services takes suffix before (front ++ e ∷ rest)
      ≡ (additions (services suffix (front ++ e ∷ [])), false)
unfolding add_services
add_services_refused takes suffix before [] rest e t r = rw (rw append-nil at r)
add_services_refused takes suffix before (x ∷ front) rest e t r =
    let s : Text × ℕ = (x.name ++ suffix, x.port) in
    rw (
      t.0,
      add_services_refused takes suffix (before ++ s ∷ []) front rest e t.1
          (rw (append_assoc before (s ∷ []) (services suffix front)) r),
    )

if_true : (b : Bool) (x y : Mdns × List Action) → b ≡ true → (if b then x else y) ≡ x
if_true b x y e = rw e

announce_all_with :
    (a : Answers) (m : Mdns) (n : ℕ)
    → m.group ≡ true
    → suffix_in a.state m.announce_suffix ≡ some n
    → announce_all a m
      ≡ announced m n (add_services a.takes (announce_suffix_str n) [] m.announcements)
unfolding announce_all
announce_all_with a m n g s = if_true m.group _ _ g ∙ ap (announce_with a m) s

-- The rest of the announcements is empty, or Avahi refuses the first one of it.
abbrev pub StopsAt : Answers → Text → List Announcement → List Announcement → Type 0
StopsAt a suffix front [] = Unit
StopsAt a suffix front (e ∷ es) = a.takes (services suffix front) (e.name ++ suffix) e.port ≡ false

-- What is asked for then.
abbrev pub outcome : Mdns → ℕ → List Announcement → List Announcement → Mdns × List Action
outcome m n front [] = (
  record m { announce_suffix = n },
  resets_group ∷ additions (services (announce_suffix_str n) front) ++ commits_group ∷ [],
)
outcome m n front (e ∷ es) = (
  record m { announce_suffix = n + 1 },
  resets_group ∷ additions (services (announce_suffix_str n) (front ++ e ∷ [])),
)

add_services-outcome :
    (a : Answers) (m : Mdns) (n : ℕ) (front rest : List Announcement)
    → TakesAll a.takes [] (services (announce_suffix_str n) front)
    → StopsAt a (announce_suffix_str n) front rest
    → announced m n (add_services a.takes (announce_suffix_str n) [] (front ++ rest))
      ≡ outcome m n front rest
add_services-outcome a m n front [] t r =
    let suffix = announce_suffix_str n in
    ap (λ es. announced m n (add_services a.takes suffix [] es)) (append-nil front)
    ∙ ap (announced m n) (add_services_all a.takes suffix [] front t)
add_services-outcome a m n front (e ∷ es) t r =
    ap (announced m n) (add_services_refused a.takes (announce_suffix_str n) [] front es e t r)

-- With a group of Avahi's that has not failed, the announcing withdraws what was announced, and then
-- asks for the announcements in their order and with the suffix, which counts one more behind a name
-- that was taken. Where Avahi takes them all, it is told to commit them; where it refuses one, nothing
-- behind that one is asked for and nothing is committed, and the suffix counts one more. The
-- announcements themselves stay.
pub announce_all-services :
    (a : Answers) (m : Mdns) (n : ℕ) (front rest : List Announcement)
    → m.group ≡ true
    → suffix_in a.state m.announce_suffix ≡ some n
    → m.announcements ≡ front ++ rest
    → TakesAll a.takes [] (services (announce_suffix_str n) front)
    → StopsAt a (announce_suffix_str n) front rest
    → announce_all a m ≡ outcome m n front rest
announce_all-services a m n front rest g s split t r =
    announce_all_with a m n g s
    ∙ ap (λ es. announced m n (add_services a.takes (announce_suffix_str n) [] es)) split
    ∙ add_services-outcome a m n front rest t r
