-- ===== src/Writer/Requests.antt =====
-- The calls of src/StreamWriter.cpp that ask for a write, and their callbacks.
use rtac_asio.Prelude.{
  ℕ, ◌+◌, ◌^◌, ◌≤◌, ◌<◌, ◌≡◌, refl, sym, ap, subst, ◌∙◌, Bool, true, false, List, [], ◌∷◌, ◌++◌,
  append-nil, append_assoc, if◌then◌else◌, ◌==◌, arith, inl, inr, Bool-cases, add_uint, ≢→==,
}
use rtac_asio.Service.{arm-posted, arm-pending}
use rtac_asio.Writer.{
  Callback, write_callback, write_some_continue, write_continue, Writer, new_write,
  async_write_some, async_write,
}
use rtac_asio.Writer.Order.{
  AllTasks, AllRequests, IsBound, Keeps, callbacks, names, in_sequence, do_write_some-Keeps,
}

-- The callback of a request, if the call returned `true`.
abbrev pub when : Bool → Callback → List Callback
when started c = if started then c ∷ [] else []

-- What a call that asks for a write leaves.
pub record Starts (r : Writer) (c : Callback) (out : Bool × Writer) : Type 0 where
  pub order : in_sequence out.1 ≡ in_sequence r ++ when out.0 c
  pub bound : IsBound r → IsBound out.1
  pub counter : out.1.write_counter ≤ r.write_counter + 1

pub new_write-Starts :
    (r : Writer) (n a : ℕ) (c : Callback) (millis : ℕ)
    → r.write_counter + 1 < 2 ^ 32
    → Starts r c (new_write r n a c millis)
unfolding new_write
new_write-Starts r n a c millis h = elim (Bool-cases (r.write_id == 0)) [
  | inr busy ↦
      rw busy (record { order = rw (busy, append-nil) refl; bound = λ v. v; counter = omega arith })
  | inl idle ↦ rw idle (record {
    order =
        rw (≢→== (add_uint r.write_counter 1) 0 (omega arith), idle, arm-posted, append_assoc)
          (ap (λ x. names r.called ++ (x ++ c ∷ [])) (sym (append-nil (callbacks r.posted))));
    bound = λ v. record {
      tasks = subst AllTasks (sym (arm-posted r.env millis _)) v.tasks;
      requests = subst AllRequests (sym (arm-pending r.env millis _)) v.requests;
    };
    counter = omega arith;
  })
]

Starts-Keeps :
    {r : Writer} {c : Callback} {b : Bool} {p q : Writer}
    → Starts r c (b, p)
    → Keeps p q
    → Starts r c (b, q)
Starts-Keeps st k = record {
  order = k.order ∙ st.order;
  bound = λ v. k.bound (st.bound v);
  counter = rw (k.counter) st.counter;
}

module _ (r : Writer) (n a : ℕ) (c : Callback) (millis : ℕ) (h : r.write_counter + 1 < 2 ^ 32) where
  pub async_write_some-Starts : Starts r c (async_write_some r n a c millis)
  unfolding async_write_some
  async_write_some-Starts =
      let st : Starts r c (new_write r n a c millis) = new_write-Starts r n a c millis h in
      elim (Bool-cases (new_write r n a c millis).0) [
        | inl begun ↦
            rw begun
              (Starts-Keeps (rw begun at st) (do_write_some-Keeps _ _ _ (write_some_continue _) tt))
        | inr busy ↦ rw busy (rw busy at st)
      ]

  pub async_write-Starts : Starts r c (async_write r n a c millis)
  unfolding async_write
  async_write-Starts =
      let st : Starts r c (new_write r n a c millis) = new_write-Starts r n a c millis h in
      elim (Bool-cases (new_write r n a c millis).0) [
        | inl begun ↦
            rw begun
              (Starts-Keeps (rw begun at st) (do_write_some-Keeps _ _ _ (write_continue _) tt))
        | inr busy ↦ rw busy (rw busy at st)
      ]

pub waiting-Starts :
    (r : Writer) (out : Bool × Writer)
    → Starts r write_callback out
    → Starts r write_callback
        (if out.0 then (true, record out.1 { waiter_notified = false }) else (false, out.1))
waiting-Starts r (true, q) st = record {
  order = st.order;
  bound = λ v. record { tasks = (st.bound v).tasks; requests = (st.bound v).requests };
  counter = st.counter;
}
waiting-Starts r (false, q) st = st
