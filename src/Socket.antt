-- ===== src/Socket.antt =====
-- `boost::asio::ip::tcp::socket` and `boost::asio::ip::udp::socket`, as far as the clients use them, with
-- what their documentation says. `E` is the type of end points.
use rtac_asio.Prelude.{ℕ, zero, suc, ◌≡◌, refl, sym, Bool, true, false, Option, some, if◌then◌else◌}
use rtac_asio.Service.{ErrorCode}

pub record Sockets (S E : Type 0) : Type 0 where
  -- A socket just constructed.
  pub fresh : S
  pub is_open : S → Bool
  -- `shutdown(shutdown_both, err)`, with `err`.
  pub shutdown : S → S × ErrorCode
  -- `none` is a thrown exception.
  pub cancel : S → Option S
  pub close : S → Option S
  -- The last component says whether `connect` returned; otherwise it threw.
  pub connect : S → E → S × Bool
  pub shutdown_open : (s : S) → is_open (shutdown s).0 ≡ is_open s
  pub cancel_open : (s t : S) → cancel s ≡ some t → is_open t ≡ is_open s
  pub connect_open : (s : S) (e : E) → (connect s e).1 ≡ true → is_open (connect s e).0 ≡ true

-- A socket is whether it is open, its peer may be gone, and the end point 0 refuses connections.
pub record Plug : Type 0 where
  pub opened : Bool
  pub peer : Bool

abbrev pub plug_shutdown : Plug → Plug × ErrorCode
plug_shutdown p = (p, if p.peer then 0 else 107)

abbrev pub plug_connect : Plug → ℕ → Plug × Bool
plug_connect p e = elim e [
  | zero ↦ (record p { opened = true; peer = false }, false)
  | suc _ ↦ (record { opened = true; peer = true }, true)
]

pub plug_cancel_open : (s t : Plug) → some s ≡ some t → t.opened ≡ s.opened
plug_cancel_open s t e = let same : s ≡ t = cc in λ i. (same' same i).opened
  where
    same' : s ≡ t → t ≡ s
    same' p = sym p

pub plug_connect_open :
    (s : Plug) (e : ℕ) → (plug_connect s e).1 ≡ true → (plug_connect s e).0.opened ≡ true
plug_connect_open s zero h = refl
plug_connect_open s (suc e) h = refl

instance abbrev pub plug_sockets : Sockets Plug ℕ
plug_sockets = record {
  fresh = record { opened = false; peer = false };
  is_open = λ p. p.opened;
  shutdown = plug_shutdown;
  cancel = λ p. some p;
  close = λ p. some (record p { opened = false });
  connect = plug_connect;
  shutdown_open = λ s. refl;
  cancel_open = plug_cancel_open;
  connect_open = plug_connect_open;
}
