-- ===== src/Reader/Order.antt =====
-- The callbacks of src/StreamReader.cpp as one sequence: called, posted, and of the read in progress.
use rtac_asio.Prelude.{
  ℕ, zero, suc, ◌≡◌, refl, sym, ap, ◌∙◌, List, [], ◌∷◌, ◌++◌, append-nil, append_assoc,
  if◌then◌else◌, ◌==◌, ltb, inl, inr, Bool-cases, Option-cases, erase_idx,
}
use rtac_asio.Service.{ErrorCode, success, Task, Request, post, submit}
use rtac_asio.Streambuf.{Streambuf}
use rtac_asio.Reader.{
  Callback, Handler, call, read_some_continue, read_continue, read_until_continue, dump_callback,
  Reader, finish_read, drain_buffer, do_read_some, dump_bytes, dump_enabled,
}

-- The callback of a posted function, if it is one of a caller.
abbrev pub as_call : Handler → List Callback
as_call (call c) = c ∷ []
as_call (read_some_continue id) = []
as_call (read_continue id) = []
as_call (read_until_continue id d) = []
as_call (dump_callback h a) = []

abbrev pub callbacks : List (Task Handler) → List Callback
callbacks [] = []
callbacks (t ∷ ts) = as_call t.handler ++ callbacks ts

abbrev pub names : List (Task Callback) → List Callback
names [] = []
names (t ∷ ts) = t.handler ∷ names ts

pub callbacks-append :
    (xs ys : List (Task Handler)) → callbacks (xs ++ ys) ≡ callbacks xs ++ callbacks ys
callbacks-append [] ys = refl
callbacks-append (t ∷ ts) ys =
    ap (◌++◌ (as_call t.handler)) (callbacks-append ts ys)
    ∙ sym (append_assoc (as_call t.handler) (callbacks ts) (callbacks ys))

pub names-append : (xs ys : List (Task Callback)) → names (xs ++ ys) ≡ names xs ++ names ys
names-append [] ys = refl
names-append (t ∷ ts) ys = ap (λ r. t.handler ∷ r) (names-append ts ys)

-- A handler that is none of a caller's callbacks.
abbrev pub IsContinuation : Handler → Type 0
IsContinuation (call c) = ⊥
IsContinuation (read_some_continue id) = Unit {0}
IsContinuation (read_continue id) = Unit {0}
IsContinuation (read_until_continue id d) = Unit {0}
IsContinuation (dump_callback h a) = IsContinuation h

abbrev pub IsTask : Handler → Type 0
IsTask (call c) = Unit {0}
IsTask (read_some_continue id) = Unit {0}
IsTask (read_continue id) = Unit {0}
IsTask (read_until_continue id d) = Unit {0}
IsTask (dump_callback h a) = IsContinuation h

abbrev pub AllTasks : List (Task Handler) → Type 0
AllTasks [] = Unit {0}
AllTasks (t ∷ ts) = IsTask t.handler × AllTasks ts

abbrev pub AllRequests : List (Request Handler) → Type 0
AllRequests [] = Unit {0}
AllRequests (q ∷ qs) = IsContinuation q.handler × AllRequests qs

pub as_call-IsContinuation : (h : Handler) → IsContinuation h → as_call h ≡ []
as_call-IsContinuation (call c) k = absurd k
as_call-IsContinuation (read_some_continue id) k = refl
as_call-IsContinuation (read_continue id) k = refl
as_call-IsContinuation (read_until_continue id d) k = refl
as_call-IsContinuation (dump_callback h a) k = refl

IsContinuation-IsTask : (h : Handler) → IsContinuation h → IsTask h
IsContinuation-IsTask (call c) k = tt
IsContinuation-IsTask (read_some_continue id) k = tt
IsContinuation-IsTask (read_continue id) k = tt
IsContinuation-IsTask (read_until_continue id d) k = tt
IsContinuation-IsTask (dump_callback h a) k = k

AllTasks-append :
    (ts : List (Task Handler)) (t : Task Handler)
    → AllTasks ts
    → IsTask t.handler
    → AllTasks (ts ++ t ∷ [])
AllTasks-append [] t a k = (k, tt)
AllTasks-append (u ∷ us) t a k = (a.0, AllTasks-append us t a.1 k)

AllRequests-append :
    (qs : List (Request Handler)) (q : Request Handler)
    → AllRequests qs
    → IsContinuation q.handler
    → AllRequests (qs ++ q ∷ [])
AllRequests-append [] q a k = (k, tt)
AllRequests-append (p ∷ ps) q a k = (a.0, AllRequests-append ps q a.1 k)

pub AllRequests-erase_idx :
    (qs : List (Request Handler)) (i : ℕ) → AllRequests qs → AllRequests (erase_idx qs i)
AllRequests-erase_idx [] i a = tt
AllRequests-erase_idx (q ∷ qs) zero a = a.1
AllRequests-erase_idx (q ∷ qs) (suc i) a = (a.0, AllRequests-erase_idx qs i a.1)

-- A posted continuation adds no callback.
callbacks-post :
    (ts : List (Task Handler)) (h : Handler) (err n : ℕ)
    → IsContinuation h
    → callbacks (ts ++ record { handler = h; err = err; count = n } ∷ []) ≡ callbacks ts
callbacks-post ts h err n k =
    callbacks-append ts (_ ∷ [])
    ∙ ap (λ x. callbacks ts ++ (x ++ [])) (as_call-IsContinuation h k)
    ∙ append-nil (callbacks ts)

module _ {B : Type 0} where
  -- The callback that the reader still has to post.
  abbrev pub current : Reader B → List Callback
  current r = if r.read_id == 0 then [] else r.callback ∷ []

  -- Every callback of an accepted request: those that ran, those in the service's queue, and the
  -- one of the read in progress.
  abbrev pub in_order : Reader B → List Callback
  in_order r = names r.called ++ (callbacks r.posted ++ current r)

  -- The queue and the stream hold what the reader itself has bound.
  pub record IsBound (r : Reader B) : Type 0 where
    pub tasks : AllTasks r.posted
    pub requests : AllRequests r.pending

  -- What an internal step leaves as it was.
  pub record Keeps (r r' : Reader B) : Type 0 where
    pub order : in_order r' ≡ in_order r
    pub bound : IsBound r → IsBound r'
    pub counter : r'.read_counter ≡ r.read_counter

  pub Keeps-trans : {p q r : Reader B} → Keeps p q → Keeps q r → Keeps p r
  Keeps-trans k l = record {
    order = l.order ∙ k.order;
    bound = λ v. l.bound (k.bound v);
    counter = l.counter ∙ k.counter;
  }

  pub finish_read-Keeps : (r : Reader B) (err : ErrorCode) → Keeps r (finish_read r err)
  unfolding finish_read post
  finish_read-Keeps r err = elim (Bool-cases (r.read_id == 0)) [
    | inl idle ↦ rw idle (record { order = refl; bound = λ v. v; counter = refl })
    | inr busy ↦ rw busy (record {
      order = rw busy (
          ap (◌++◌ (names r.called))
            (append-nil (callbacks (r.posted ++ _ ∷ [])) ∙ callbacks-append r.posted (_ ∷ [])));
      bound = λ v. record { tasks = AllTasks-append r.posted _ v.tasks tt; requests = v.requests };
      counter = refl;
    })
  ]

  pub dump_bytes-Keeps :
      (r : Reader B) (a : ℕ) (err : ErrorCode) (n : ℕ) → Keeps r (dump_bytes r a err n)
  unfolding dump_bytes
  dump_bytes-Keeps r a err n = elim (Bool-cases (err == success)) [
    | inl good ↦ rw good (elim (Option-cases r.rx_dump) [
      | inl off ↦ rw off (record {
        order = refl;
        bound = λ v. record { tasks = v.tasks; requests = v.requests };
        counter = refl;
      })
      | inr (name, on) ↦ rw on (record {
        order = refl;
        bound = λ v. record { tasks = v.tasks; requests = v.requests };
        counter = refl;
      })
    ])
    | inr bad ↦ rw bad (record { order = refl; bound = λ v. v; counter = refl })
  ]

module _ {B : Type 0} ⦃s : Streambuf B⦄ where
  pub do_read_some-Keeps :
      (r : Reader B) (n p : ℕ) (h : Handler) → IsContinuation h → Keeps r (do_read_some r n p h)
  unfolding do_read_some post submit
  do_read_some-Keeps r n p h k = elim (Bool-cases (ltb 0 (s.size r.read_buffer))) [
    | inl full ↦ rw full (record {
      order =
          ap (λ x. names r.called ++ (x ++ current r))
            (callbacks-post r.posted h success (drain_buffer r n p).got k);
      bound = λ v. record {
        tasks = AllTasks-append r.posted _ v.tasks (IsContinuation-IsTask h k);
        requests = v.requests;
      };
      counter = refl;
    })
    | inr dry ↦ rw dry (elim (Bool-cases (dump_enabled r)) [
      | inl on ↦ rw on (record {
        order = refl;
        bound =
            λ v. record { tasks = v.tasks; requests = AllRequests-append r.pending _ v.requests k };
        counter = refl;
      })
      | inr off ↦ rw off (record {
        order = refl;
        bound =
            λ v. record { tasks = v.tasks; requests = AllRequests-append r.pending _ v.requests k };
        counter = refl;
      })
    ])
  ]
