-- ===== src/Peer/Dispatched.antt =====
-- What the two listeners leave, from what the handlers of their tables leave.
use v6chat.Base.{
  ℕ, ◌≡◌, refl, Bool, true, false, Option, none, some, List, [], ◌∷◌, Bool-cases, inl, inr,
}
use v6chat.Numbers.{ℤ, pos, int_eq}
use v6chat.Peer.Dispatch.{
  Message, handler_of, dispatch, with_mid, udp_table, tcp_table, listener_call_back,
  listener_with_socket_call_back,
}
use v6chat.Peer.Keeping.{Holds}
use v6chat.Peer.Kernel.{World, Kernel, Proc, skip, fails, when, needs, either, given}
use v6chat.Peer.Listener.{Datagram}
use v6chat.Text.{Text, codes}

-- Every entry of a table.
abbrev pub Each {ℓ} : {A : Type ℓ} → (A → Type 0) → List (ℕ × A) → Type 0
Each Q [] = Unit {0}
Each Q ((t, a) ∷ table) = Q a × Each Q table

module _ (P : Kernel → Type 0) (k : Kernel) (g : P k) where
  -- The procedure leaves `P`, begun with these lists.
  abbrev Leaves : Proc → Type 0
  Leaves p = Holds P (p k)

  when-Leaves : (b : Bool) (p : Proc) → Leaves p → Leaves (when b p)
  unfolding when skip
  when-Leaves true p h = h
  when-Leaves false p h = g

  needs-Leaves {ℓ} :
      {A : Type ℓ} (o : Option A) (f : A → Proc) → ((a : A) → Leaves (f a)) → Leaves (needs o f)
  unfolding needs fails
  needs-Leaves none f h = tt
  needs-Leaves (some a) f h = h a

  given-Leaves {ℓ} :
      {A : Type ℓ} (o : Option A) (f : A → Proc)
      → ((a : A) → Leaves (f a))
      → Leaves (given o skip f)
  unfolding given skip
  given-Leaves none f h = g
  given-Leaves (some a) f h = h a

  -- Whatever handler is found, if each of the table leaves it for every message `from` is true of.
  handler_of-Leaves :
      {M : Type 0} (From : M → Type 0) (use_it : (M → Proc) → Proc) (t : ℤ)
      (table : List (ℕ × (M → Proc)))
      → ((h : M → Proc) → ((m : M) → From m → Leaves (h m)) → Leaves (use_it h))
      → Each (λ h. (m : M) → From m → Leaves (h m)) table
      → Leaves (given (handler_of t table) skip use_it)
  unfolding handler_of given skip
  handler_of-Leaves From use_it t [] uses each = g
  handler_of-Leaves From use_it t ((n, h) ∷ table) uses each =
      elim (Bool-cases (int_eq t (pos n))) [
        | inl here ↦ rw here (uses h each.0)
        | inr away ↦ rw away (handler_of-Leaves From use_it t table uses each.1)
      ]

  module _ (w : World) where
    dispatch-Leaves :
        {M : Type 0} (From : M → Type 0) (content : w.json.Value) (table : List (ℕ × (M → Proc)))
        (use_it : (M → Proc) → Proc)
        → ((h : M → Proc) → ((m : M) → From m → Leaves (h m)) → Leaves (use_it h))
        → Each (λ h. (m : M) → From m → Leaves (h m)) table
        → Leaves (dispatch w content table use_it)
    unfolding dispatch
    dispatch-Leaves From content table use_it uses each =
        when-Leaves _ _ (needs-Leaves _ _ (λ t. handler_of-Leaves From use_it t table uses each))

    with_mid-Leaves :
        (box : w.json.Value) (f : Option Text → Proc)
        → ((mid : Option Text) → Leaves (f mid))
        → Leaves (with_mid w box f)
    unfolding with_mid either
    with_mid-Leaves box f h = elim (Bool-cases (w.json.is_null (w.json.member (codes "mid") box))) [
      | inl absent ↦ rw (with_mid, absent) (h none)
      | inr there ↦ rw (with_mid, there) (needs-Leaves _ _ (λ m. h (some m)))
    ]

    pub listener_call_back-Leaves :
        (rec : Option Text) (ip : Text) (port : ℤ)
        → Each (λ h. (d : Datagram w.json) → d.ip ≡ ip → Leaves (h d)) (udp_table w)
        → Leaves (listener_call_back w rec ip port)
    unfolding listener_call_back skip
    listener_call_back-Leaves none ip port each = g
    listener_call_back-Leaves (some rec) ip port each = given-Leaves _ _ (λ box. when-Leaves _ _ (
        needs-Leaves _ _ (λ inner. given-Leaves _ _ (λ content.
          dispatch-Leaves (λ d. d.ip ≡ ip) content (udp_table w) _
            (λ h leaves.
              let datagram : Option Text → Datagram w.json =
                λ mid. record { ip = ip; port = port; content = content; mid = mid } in
              with_mid-Leaves box (λ mid. h (datagram mid)) (λ mid. leaves (datagram mid) refl))
            each))))

    pub listener_with_socket_call_back-Leaves :
        (rec : Option Text) (ip : Text) (port : ℤ)
        → Each (λ h. (m : Message w.json) → m.ip ≡ ip → Leaves (h m)) (tcp_table w)
        → Leaves (listener_with_socket_call_back w rec ip port)
    unfolding listener_with_socket_call_back skip
    listener_with_socket_call_back-Leaves none ip port each = g
    listener_with_socket_call_back-Leaves (some rec) ip port each = given-Leaves _ _ (λ msg.
        dispatch-Leaves (λ m. m.ip ≡ ip) msg (tcp_table w) _
          (λ h leaves. leaves (record { ip = ip; port = port; content = msg }) refl) each)
