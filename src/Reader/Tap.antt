-- ===== src/Reader/Tap.antt =====
-- src/StreamReader.cpp, `do_read_some` and `dump_callback`: one operation, with or without a dump.
use rtac_asio.Prelude.{ℕ, ◌≡◌, refl, ap, Option, none, some, List, [], length}
use rtac_asio.Memory.{Bytes, fill, peek-fill}
use rtac_asio.Service.{success, append_file, submit}
use rtac_asio.Service.Files.{logged}
use rtac_asio.Streambuf.{Streambuf, size-empty}
use rtac_asio.Reader.{Handler, dump_callback, Reader, dump_bytes, dump_enabled, do_read_some}
use rtac_asio.Reader.Run.{run_handler}

-- The handler that goes to the stream with an operation at `a`.
abbrev pub tapped : Option ℕ → Handler → ℕ → Handler
tapped none h a = h
tapped (some name) h a = dump_callback h a

module _ {B : Type 0} ⦃s : Streambuf B⦄ where
  pub do_read_some-tapped :
      (r : Reader B) (o : Option ℕ) (n a : ℕ) (h : Handler)
      → s.contents r.read_buffer ≡ []
      → do_read_some (record r { rx_dump = o }) n a h
        ≡ record r { rx_dump = o; env = submit r.env n a (tapped o h a) }
  unfolding do_read_some dump_enabled
  do_read_some-tapped r none n a h dry = rw (size-empty r.read_buffer dry) refl
  do_read_some-tapped r (some name) n a h dry = rw (size-empty r.read_buffer dry) refl

  -- `bs` has been put at `a`.
  pub run_handler-tapped :
      (r : Reader B) (o : Option ℕ) (m : Bytes) (a : ℕ) (bs : List ℕ) (h : Handler)
      → run_handler
          (tapped o h a)
          (record r { rx_dump = o; env = record r.env { mem = fill m a bs } })
          success
          (length bs)
        ≡ run_handler h
            (record r {
              rx_dump = o;
              env = record r.env { mem = fill m a bs; files = logged o r.files bs };
            })
            success
            (length bs)
  unfolding run_handler dump_bytes
  run_handler-tapped r none m a bs h = refl
  run_handler-tapped r (some name) m a bs h =
      ap
        (λ xs.
          run_handler h
            (record r {
              rx_dump = some name;
              env = record r.env { mem = fill m a bs; files = append_file r.files name xs };
            })
            success (length bs))
        (peek-fill m a bs)
