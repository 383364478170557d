-- ===== src/Common/SocketUtils/Opening.antt =====
-- When `CreateSocket` of common/SocketUtils.cpp returns a socket.
use low_latency.Prelude.{
  ◌⊎◌, arith, ℕ, ◌≡◌, refl, true, List, [], ◌∷◌, ◌++◌, none, some, Bool, Bool-cases, inl, inr, Ptr,
  Option-cases, ap, ◌∙◌, sym, false,
}
use mathlib.Core.List.{append_assoc, append-nil}
use low_latency.Common.SocketUtils.{Address, set_non_blocking, configure, open_all, create_socket}

module _ (is_udp is_listening needs_so_timestamp : Bool) where
  -- Every call that a socket of this kind needs has succeeded: a TCP socket is without delay, one
  -- that does not listen is connected, one that listens is bound to an address that can be reused,
  -- and listens if it is one of TCP; it does not block, and has time stamps if they are needed.
  pub record IsConfigured (a : Address) : Type 0 where
    pub no_delay : (is_udp ≡ true) ⊎ (a.no_delay ≡ true)
    pub connected : (is_listening ≡ true) ⊎ (a.connects ≡ true)
    pub reused : (is_listening ≡ false) ⊎ (a.reuses ≡ true)
    pub bound : (is_listening ≡ false) ⊎ (a.binds ≡ true)
    pub listens : (is_listening ≡ false) ⊎ ((is_udp ≡ true) ⊎ (a.listens ≡ true))
    pub non_blocking :
        (a.non_blocking_flag ≡ some true)
        ⊎ ((a.non_blocking_flag ≡ some false) × (a.sets_non_blocking ≡ true))
    pub stamped : (needs_so_timestamp ≡ false) ⊎ (a.so_timestamp ≡ true)

  configure-IsConfigured :
      (a : Address) → configure is_udp is_listening needs_so_timestamp a ≡ true → IsConfigured a
  unfolding configure set_non_blocking
  configure-IsConfigured a e = record {
    no_delay = ground (arith, e);
    connected = ground (arith, e);
    reused = ground (arith, e);
    bound = ground (arith, e);
    listens = ground (arith, e);
    non_blocking = ground (arith, e);
    stamped = ground (arith, e);
  }

  -- Each address has got a descriptor, those of `fds` in order, on which all calls succeeded.
  abbrev pub AreOpened : List Address → List ℕ → Type 0
  AreOpened [] [] = Unit
  AreOpened [] (_ ∷ _) = ⊥
  AreOpened (_ ∷ _) [] = ⊥
  AreOpened (a ∷ as_) (n ∷ ns) = (a.fd ≡ some n) × IsConfigured a × AreOpened as_ ns

  -- The last of `ns`, or `fd`.
  abbrev pub last_of : Ptr → List ℕ → Ptr
  last_of fd [] = fd
  last_of fd (n ∷ ns) = last_of (some n) ns

  abbrev opens : List Address → Ptr → List ℕ → Ptr × List ℕ
  opens = open_all is_udp is_listening needs_so_timestamp

  open_all-none :
      (a : Address) (as_ : List Address) (fd : Ptr) (before : List ℕ)
      → a.fd ≡ none
      → (opens (a ∷ as_) fd before).0 ≡ none
  unfolding open_all
  open_all-none a as_ fd before e = rw e refl

  open_all-failed :
      (a : Address) (as_ : List Address) (fd : Ptr) (before : List ℕ) (m : ℕ)
      → a.fd ≡ some m
      → configure is_udp is_listening needs_so_timestamp a ≡ false
      → (opens (a ∷ as_) fd before).0 ≡ none
  unfolding open_all
  open_all-failed a as_ fd before m e c = rw (e, c) refl

  open_all-next :
      (a : Address) (as_ : List Address) (fd : Ptr) (before : List ℕ) (m : ℕ)
      → a.fd ≡ some m
      → configure is_udp is_listening needs_so_timestamp a ≡ true
      → opens (a ∷ as_) fd before ≡ opens as_ (some m) (before ++ (m ∷ []))
  unfolding open_all
  open_all-next a as_ fd before m e c = rw (e, c) refl

  open_all-opened :
      (as_ : List Address) (fd : Ptr) (before : List ℕ) (n : ℕ)
      → (opens as_ fd before).0 ≡ some n
      → (ns : List ℕ) × AreOpened as_ ns
        × (last_of fd ns ≡ some n)
        × ((opens as_ fd before).1 ≡ before ++ ns)
  unfolding open_all
  open_all-opened [] fd before n e = ([], tt, e, sym (append-nil before))
  open_all-opened (a ∷ as_) fd before n e = elim (Option-cases a.fd) [
    | inl missing ↦ absurd (none-ne-some (sym (open_all-none a as_ fd before missing) ∙ e))
    | inr (m, has) ↦ elim (Bool-cases (configure is_udp is_listening needs_so_timestamp a)) [
      | inl c ↦
          let next = open_all-next a as_ fd before m has c in
          let (ns, all, end, out) =
            open_all-opened as_ (some m) (before ++ (m ∷ [])) n (sym (ap (λ p. p.0) next) ∙ e) in
          (
            m ∷ ns,
            (has, configure-IsConfigured a c, all),
            end,
            ap (λ p. p.1) next ∙ out ∙ append_assoc before (m ∷ []) ns,
          )
      | inr c ↦ absurd (none-ne-some (sym (open_all-failed a as_ fd before m has c) ∙ e))
    ]
  ]
    where
      none-ne-some : (◌≡◌ {A = Ptr} none (some n)) → ⊥
      none-ne-some h = cc

  -- If `CreateSocket` returns a descriptor, then each address has got one on which every call that
  -- its kind of socket needs has succeeded, the one returned is that of the last address, and all
  -- of them are open.
  pub create_socket-opened :
      (addresses : List Address) (n : ℕ)
      → (create_socket is_udp is_listening needs_so_timestamp (some addresses)).0 ≡ some n
      → (ns : List ℕ) × AreOpened addresses ns
        × (last_of none ns ≡ some n)
        × ((create_socket is_udp is_listening needs_so_timestamp (some addresses)).1 ≡ ns)
  unfolding create_socket
  create_socket-opened addresses n e = open_all-opened addresses none [] n e
