-- ===== src/Udp/Tests.antt =====
-- The client of src/UDPClientStream.cpp with a buffer of 4 bytes.
use rtac_asio.Prelude.{ℕ, ◌+◌, ◌≡◌, ◌<◌, ◌≤◌, inl, inr, refl, true, some, [], ◌∷◌, ◌++◌, arith}
use rtac_asio.Memory.{peek, fill}
use rtac_asio.Service.{success}
use rtac_asio.Socket.{Plug, plug_sockets}
use rtac_asio.Udp.{Udp, available, call, async_read_some, receive_continue, complete}
use rtac_asio.Udp.Window.{IsSound, stream}
use rtac_asio.Udp.Conserve.{reads, completes, start, then_step, Run-conserves}
use rtac_asio.Udp.Overlap.{complete_overlaps}

abbrev plug : Plug
plug = record { opened = true; peer = true }

-- A client just connected. Callbacks are numbers.
abbrev fresh : Udp Plug ℕ ℕ
fresh = record {
  socket = some plug;
  remote = 7;
  size = 4;
  buffer = λ _. 0;
  buffer_begin = 0;
  buffer_end = 0;
  mem = λ _. 0;
  receives = [];
  calls = [];
  sends = [];
  written = [];
}

fresh-IsSound : IsSound fresh
fresh-IsSound = record {
  linked = (plug, refl);
  small = omega arith;
  inside = omega arith;
  shape = inr (refl, refl);
  single = inl refl;
}

-- A read of 2 bytes is in hand.
abbrev asked : Udp Plug ℕ ℕ
asked = record fresh { receives = record { count = 2; addr = 100; callback = 1 } ∷ [] }

asked_runs : async_read_some fresh 2 100 1 ≡ some asked
unfolding async_read_some available
asked_runs = refl

asked-IsSound : IsSound asked
asked-IsSound = record {
  linked = (plug, refl);
  small = omega arith;
  inside = omega arith;
  shape = inr (refl, refl);
  single = inr (record { count = 2; addr = 100; callback = 1 }, refl, refl, refl);
}

-- A datagram of 3 bytes has come.
abbrev answered : Udp Plug ℕ ℕ
answered = record fresh {
  buffer = fill (λ _. 0) 0 (5 ∷ 6 ∷ 7 ∷ []);
  buffer_begin = 2;
  buffer_end = 3;
  mem = fill (λ _. 0) 100 (5 ∷ 6 ∷ []);
  calls = record { callback = 1; err = success; count = 2; seen = 5 ∷ 6 ∷ [] } ∷ [];
}

answered_runs : complete asked (5 ∷ 6 ∷ 7 ∷ []) success ≡ some answered
unfolding complete receive_continue async_read_some available call
answered_runs = refl

Run-conserves_example : (stream answered ≡ 5 ∷ 6 ∷ 7 ∷ []) × (3 ≤ 4) × IsSound answered
Run-conserves_example = Run-conserves fresh-IsSound (
    then_step (then_step start (reads 2 100 1 refl asked_runs)) (
      completes (record { count = 2; addr = 100; callback = 1 }) (5 ∷ 6 ∷ 7 ∷ []) success refl
        answered_runs))

-- A second read of 8 bytes was in hand when the datagram came.
abbrev doubled : Udp Plug ℕ ℕ
doubled = record answered { receives = record { count = 8; addr = 200; callback = 2 } ∷ [] }

doubled_runs :
    complete
      (record asked {
        receives =
            record { count = 2; addr = 100; callback = 1 }
            ∷ record { count = 8; addr = 200; callback = 2 }
            ∷ [];
      })
      (5 ∷ 6 ∷ 7 ∷ [])
      success
    ≡ some doubled
unfolding complete receive_continue async_read_some available call
doubled_runs = refl

complete_overlaps_example :
    (w : Udp Plug ℕ ℕ) × (n : ℕ) × (complete doubled (1 ∷ 2 ∷ []) success ≡ some w)
    × (w.calls
        ≡ doubled.calls
          ++ record {
            callback = 2;
            err = success;
            count = n;
            seen = peek (fill doubled.buffer 0 (1 ∷ 2 ∷ [])) 2 n;
          }
            ∷ [])
    × (4 < 2 + n)
complete_overlaps_example =
    complete_overlaps doubled (record { count = 8; addr = 200; callback = 2 }) [] (1 ∷ 2 ∷ []) refl
      (omega arith) (omega arith) (omega arith) (omega arith)
