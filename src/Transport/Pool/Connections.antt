-- ===== src/Transport/Pool/Connections.antt =====
-- Send writes to a connection that was dialled to the address, and to no closed one.
use uav.Base.{
  ℕ, ◌+◌, ◌<◌, ◌≤◌, ◌≡◌, inl, inr, refl, sym, ap, ◌∙◌, ◌==◌, Bool-cases, none_ne, some_eq, Bool,
  true, false, none, some, String, List, ◌∷◌, if◌then◌else◌, string_key,
}
use uav.Base.Map
use uav.Base.Map.{Map}
use uav.Message.{Message}
use uav.Transport.Pool.{TcpConn, Written, Outbound, new_outbound}

-- The connection was dialled to this address and has not been closed.
abbrev pub Open : Outbound → String → ℕ → Type 0
Open t addr i = (i < t.dialled) × (t.remote i ≡ addr) × (t.closed i ≡ false)

-- Every entry stands under its address, and its connection, if any, is open. Connections that were
-- not dialled yet are not closed.
pub record IsPool (t : Outbound) : Type 0 where
  pub keyed : (addr : String) (c : TcpConn) → Map.get addr t.pool ≡ some c → c.addr ≡ addr
  pub opened :
      (addr : String) (c : TcpConn) (i : ℕ)
      → Map.get addr t.pool ≡ some c
      → c.conn ≡ some i
      → Open t addr i
  pub fresh : (i : ℕ) → t.dialled ≤ i → t.closed i ≡ false

same_addr : (a b : String) → string_key.same a b ≡ true → a ≡ b
same_addr a b = (string_key.same_iff a b).0

pub new_outbound-IsPool : IsPool new_outbound
unfolding new_outbound Map.get
new_outbound-IsPool = record {
  keyed = λ addr c found. absurd (none_ne c found);
  opened = λ addr c i found live. absurd (none_ne c found);
  fresh = λ i b. refl;
}

-- An entry without a connection may stand in for any.
pub put_idle-IsPool :
    (t : Outbound) (c : TcpConn)
    → c.conn ≡ none
    → IsPool t
    → IsPool (record t { pool = Map.put c.addr c t.pool })
put_idle-IsPool t c idle v = record {
  keyed = λ addr d found. elim (Bool-cases (string_key.same c.addr addr)) [
    | inl this ↦
        let new : c ≡ d = some_eq c d (sym (Map.get-put_same c.addr addr c t.pool this) ∙ found) in
        ap (λ x. x.addr) (sym new) ∙ same_addr c.addr addr this
    | inr other ↦ v.keyed addr d (sym (Map.get-put_other c.addr addr c t.pool other) ∙ found)
  ];
  opened = λ addr d i found live. elim (Bool-cases (string_key.same c.addr addr)) [
    | inl this ↦
        let new : c ≡ d = some_eq c d (sym (Map.get-put_same c.addr addr c t.pool this) ∙ found) in
        absurd (none_ne i (sym idle ∙ ap (λ x. x.conn) new ∙ live))
    | inr other ↦
        v.opened addr d i (sym (Map.get-put_other c.addr addr c t.pool other) ∙ found) live
  ];
  fresh = v.fresh;
}

-- The pool after a successful dial for its entry tc.
module _ (tc : TcpConn) (t : Outbound) (v : IsPool t) where
  unfoldable connected : Outbound
  connected = record t {
    pool = Map.put tc.addr (record tc { conn = some t.dialled; backoff = 100 }) t.pool;
    dialled = t.dialled + 1;
    remote = λ i. if t.dialled == i then tc.addr else t.remote i;
  }

-- What a Send of this frame has come to: the frame was taken by an open connection to the address, or
-- nothing was written and the address has no connection, so that the next Send dials.
pub data Sent (addr : String) (frame : List ℕ) (before : List Written)
    : Bool → Outbound → Type 0 where
  taken :
      (i : ℕ) (t : Outbound)
      → Open t addr i
      → t.written ≡ record { conn = i; frame = frame } ∷ before
      → Sent addr frame before true t
  failed :
      (c : TcpConn) (t : Outbound)
      → Map.get addr t.pool ≡ some c
      → c.conn ≡ none
      → t.written ≡ before
      → Sent addr frame before false t

module _ (tc : TcpConn) (i : ℕ) (frame : List ℕ) (t : Outbound) (v : IsPool t)
    (live : Open t tc.addr i) where
  abbrev idle : TcpConn
  idle = record tc { conn = none }

  -- The pool after a failed write.
  abbrev lost : Outbound
  lost = record t {
    pool = Map.put tc.addr idle t.pool;
    closed = λ j. if i == j then true else t.closed j;
  }
