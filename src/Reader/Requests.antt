-- ===== src/Reader/Requests.antt =====
-- The calls of src/StreamReader.cpp that ask for a read, and their callbacks.
use rtac_asio.Prelude.{
  ℕ, ◌+◌, ◌^◌, ◌≤◌, ◌<◌, ◌≡◌, refl, sym, ap, subst, ◌∙◌, Bool, true, false, List, [], ◌∷◌, ◌++◌,
  append-nil, append_assoc, if◌then◌else◌, ◌==◌, arith, inl, inr, Bool-cases, add_uint, ≢→==,
}
use rtac_asio.Service.{arm-posted, arm-pending}
use rtac_asio.Streambuf.{Streambuf}
use rtac_asio.Reader.{
  Callback, read_callback, read_some_continue, read_continue, read_until_continue, Reader, new_read,
  async_read_some, async_read,
}
use rtac_asio.Reader.Until.{scan_buffer, async_read_until}
use rtac_asio.Reader.Order.{
  AllTasks, AllRequests, IsBound, Keeps, Keeps-trans, callbacks, names, in_order,
  do_read_some-Keeps,
}
use rtac_asio.Reader.Callbacks.{scan_buffer-Keeps}

-- The callback of a request, if the call returned `true`.
abbrev pub when : Bool → Callback → List Callback
when started c = if started then c ∷ [] else []

module _ {B : Type 0} where
  -- What a call that asks for a read leaves.
  pub record Starts (r : Reader B) (c : Callback) (out : Bool × Reader B) : Type 0 where
    pub order : in_order out.1 ≡ in_order r ++ when out.0 c
    pub bound : IsBound r → IsBound out.1
    pub counter : out.1.read_counter ≤ r.read_counter + 1

  pub new_read-Starts :
      (r : Reader B) (n a : ℕ) (c : Callback) (millis : ℕ)
      → r.read_counter + 1 < 2 ^ 32
      → Starts r c (new_read r n a c millis)
  unfolding new_read
  new_read-Starts r n a c millis h = elim (Bool-cases (r.read_id == 0)) [
    | inr busy ↦
        rw busy
          (record { order = rw (busy, append-nil) refl; bound = λ v. v; counter = omega arith })
    | inl idle ↦ rw idle (record {
      order =
          rw (≢→== (add_uint r.read_counter 1) 0 (omega arith), idle, arm-posted, append_assoc)
            (ap (λ x. names r.called ++ (x ++ c ∷ [])) (sym (append-nil (callbacks r.posted))));
      bound = λ v. record {
        tasks = subst AllTasks (sym (arm-posted r.env millis _)) v.tasks;
        requests = subst AllRequests (sym (arm-pending r.env millis _)) v.requests;
      };
      counter = omega arith;
    })
  ]

  Starts-Keeps :
      {r : Reader B} {c : Callback} {b : Bool} {p q : Reader B}
      → Starts r c (b, p)
      → Keeps p q
      → Starts r c (b, q)
  Starts-Keeps st k = record {
    order = k.order ∙ st.order;
    bound = λ v. k.bound (st.bound v);
    counter = rw (k.counter) st.counter;
  }

module _ {B : Type 0} ⦃s : Streambuf B⦄ where
  module _ (r : Reader B) (n a : ℕ) (c : Callback) (millis : ℕ)
      (h : r.read_counter + 1 < 2 ^ 32) where
    pub async_read_some-Starts : Starts r c (async_read_some r n a c millis)
    unfolding async_read_some
    async_read_some-Starts =
        let st : Starts r c (new_read r n a c millis) = new_read-Starts r n a c millis h in
        elim (Bool-cases (new_read r n a c millis).0) [
          | inl begun ↦
              rw begun
                (Starts-Keeps (rw begun at st) (do_read_some-Keeps _ _ _ (read_some_continue _) tt))
          | inr busy ↦ rw busy (rw busy at st)
        ]

    pub async_read-Starts : Starts r c (async_read r n a c millis)
    unfolding async_read
    async_read-Starts =
        let st : Starts r c (new_read r n a c millis) = new_read-Starts r n a c millis h in
        elim (Bool-cases (new_read r n a c millis).0) [
          | inl begun ↦
              rw begun
                (Starts-Keeps (rw begun at st) (do_read_some-Keeps _ _ _ (read_continue _) tt))
          | inr busy ↦ rw busy (rw busy at st)
        ]

    pub async_read_until-Starts : (d : ℕ) → Starts r c (async_read_until r n a d c millis)
    unfolding async_read_until
    async_read_until-Starts d =
        let st : Starts r c (new_read r n a c millis) = new_read-Starts r n a c millis h in
        elim (Bool-cases (new_read r n a c millis).0) [
          | inr busy ↦ rw busy (rw busy at st)
          | inl begun ↦ rw begun (elim (Bool-cases (scan_buffer d (new_read r n a c millis).1).0) [
            | inl found ↦ rw found (Starts-Keeps (rw begun at st) (scan_buffer-Keeps d _))
            | inr more ↦ rw more (
                Starts-Keeps (rw begun at st) (
                  Keeps-trans (scan_buffer-Keeps d _)
                    (do_read_some-Keeps _ _ _ (read_until_continue _ d) tt)))
          ])
        ]

  pub waiting-Starts :
      (r : Reader B) (out : Bool × Reader B)
      → Starts r read_callback out
      → Starts r read_callback
          (if out.0 then (true, record out.1 { waiter_notified = false }) else (false, out.1))
  waiting-Starts r (true, q) st = record {
    order = st.order;
    bound = λ v. record { tasks = (st.bound v).tasks; requests = (st.bound v).requests };
    counter = st.counter;
  }
  waiting-Starts r (false, q) st = st
