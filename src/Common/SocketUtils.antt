-- ===== src/Common/SocketUtils.antt =====
-- common/SocketUtils.cpp: opening a socket. What the operating system answers to each call is a
-- parameter; a descriptor is a number, and `none` stands for -1.
pub mod Opening
use low_latency.Prelude.{
  ℕ, Bool, true, false, not, ◌&&◌, ◌||◌, List, [], ◌∷◌, ◌++◌, ◌==◌, none, some, if◌then◌else◌,
  Option, Ptr,
}
use low_latency.Prelude.Int.{ℤ, pos, negsuc}

-- The bytes of a text.
abbrev pub Text : Type 0
Text = List ℕ

abbrev pub same_text : Text → Text → Bool
same_text [] [] = true
same_text [] (_ ∷ _) = false
same_text (_ ∷ _) [] = false
same_text (a ∷ as_) (b ∷ bs) = (a == b) && same_text as_ bs

-- An entry of `getifaddrs`: `has_inet` says that it has an address of the family AF_INET, whose
-- numbers `getnameinfo` writes as `host`.
pub record Interface : Type 0 where
  pub has_inet : Bool
  pub name : Text
  pub host : Text

abbrev first_host : Text → List Interface → Text
first_host iface [] = []
first_host iface (i ∷ is) =
    if i.has_inet && same_text iface i.name then i.host else first_host iface is

-- `GetIFaceIP`: `none` where `getifaddrs` fails.
unfoldable pub get_iface_ip : Option (List Interface) → Text → Text
get_iface_ip none iface = []
get_iface_ip (some interfaces) iface = first_host iface interfaces

-- `SetNonBlocking`: `flag` is the bit O_NONBLOCK of what F_GETFL returns, if it returns anything, and
-- `set` whether F_SETFL succeeds.
unfoldable pub set_non_blocking : (flag : Option Bool) → (set : Bool) → Bool
set_non_blocking none set = false
set_non_blocking (some true) set = true
set_non_blocking (some false) set = set

-- `Join`, on what `setsockopt` returns.
unfoldable pub join : ℤ → Bool
join (pos n) = not (n == 1)
join (negsuc n) = true

-- What the calls on one address of `getaddrinfo` return: `fd` is that of `socket`, and each of the
-- others says whether its call succeeds.
pub record Address : Type 0 where
  pub fd : Ptr
  pub no_delay : Bool
  pub connects : Bool
  pub reuses : Bool
  pub binds : Bool
  pub listens : Bool
  pub non_blocking_flag : Option Bool
  pub sets_non_blocking : Bool
  pub so_timestamp : Bool

module _ (is_udp is_listening needs_so_timestamp : Bool) where
  -- The calls after `socket` in the loop of `CreateSocket`, each with its guard.
  unfoldable pub configure : Address → Bool
  unfolding set_non_blocking
  configure a =
      (is_udp || a.no_delay)
      && (is_listening || a.connects)
      && (not is_listening || (a.reuses && a.binds))
      && (not (is_listening && not is_udp) || a.listens)
      && set_non_blocking a.non_blocking_flag a.sets_non_blocking
      && (not needs_so_timestamp || a.so_timestamp)

  -- The loop, with `fdSocket` and the descriptors that have been opened; a failure returns -1 and
  -- closes nothing.
  unfoldable pub open_all : List Address → (fd : Ptr) → (opened : List ℕ) → Ptr × List ℕ
  unfolding configure
  open_all [] fd opened = (fd, opened)
  open_all (a ∷ as_) fd opened = elim a.fd [
    | none ↦ (none, opened)
    | some n ↦
        let rest = open_all as_ (some n) (opened ++ (n ∷ [])) in
        if configure a then rest else (none, opened ++ (n ∷ []))
  ]

  -- `CreateSocket`: `none` where `getaddrinfo` fails.
  unfoldable pub create_socket : Option (List Address) → Ptr × List ℕ
  unfolding open_all
  create_socket none = (none, [])
  create_socket (some addresses) = open_all addresses none []
