-- ===== src/Reader/Timeout.antt =====
-- src/StreamReader.cpp, `new_read` and `readid_ok`: the read beyond the 32 bits of `readCounter_`.
use rtac_asio.Prelude.{
  ℕ, ◌-◌, ◌^◌, ◌≡◌, refl, sym, ◌∙◌, true, ◌&&◌, none, [], ◌∷◌, ◌++◌, ltb, arith, inl, inr,
  Bool-cases, Option-cases, ≡→==, add_size, add_uint, ◌==◌,
}
use rtac_asio.Service.{ErrorCode, success, submit, arm-posted, arm-pending}
use rtac_asio.Streambuf.{Streambuf, size-empty}
use rtac_asio.Reader.{
  Callback, read_continue, Reader, finish_read, new_read, do_read_some, dump_enabled,
  async_read_continue, async_read,
}
use rtac_asio.Reader.Run.{run_handler}

module _ {B : Type 0} ⦃s : Streambuf B⦄ where
  answer_unposted :
      (q : Reader B) (err : ErrorCode) (k : ℕ)
      → q.read_id ≡ 0
      → s.contents q.read_buffer ≡ []
      → (run_handler (read_continue 0) q err k).posted ≡ q.posted
  unfolding run_handler async_read_continue do_read_some submit finish_read dump_enabled
  answer_unposted q err k idle dry =
      rw (≡→== 0 q.read_id (sym idle))
        (elim (Bool-cases (err == success && ltb (add_size q.processed k) q.requested_size)) [
          | inl more ↦
              rw (more, size-empty q.read_buffer dry)
                (elim (Option-cases q.rx_dump) [ inl off ↦ rw off refl | inr (_, on) ↦ rw on refl ])
          | inr done ↦ rw (done, ≡→== q.read_id 0 idle) refl
        ])

  -- Where `readCounter_` wraps: an idle reader that has counted 2 ^ 32 - 1 reads, with nothing
  -- buffered and no dump, accepts one more, and that read has the id 0 of an idle reader.
  -- Whatever the stream then answers it, no callback is posted.
  pub async_read_wrapped :
      (r : Reader B) (n a : ℕ) (c : Callback) (millis : ℕ) (err : ErrorCode) (k : ℕ)
      → r.read_id ≡ 0
      → r.read_counter ≡ 2 ^ 32 - 1
      → s.contents r.read_buffer ≡ []
      → r.rx_dump ≡ none
      → let (started, r') = async_read r n a c millis in
        (started ≡ true)
        × (r'.read_id ≡ 0)
        × (r'.pending ≡ r.pending ++ record { count = n; addr = a; handler = read_continue 0 } ∷ [])
        × ((run_handler (read_continue 0) r' err k).posted ≡ r.posted)
  unfolding async_read new_read do_read_some dump_enabled submit
  async_read_wrapped r n a c millis err k idle full dry off =
      rw (≡→== r.read_id 0 idle, counter, size-empty r.read_buffer dry, off)
        (
          refl,
          refl,
          (λ i.
              arm-pending r.env millis 0 i
              ++ record { count = n; addr = a; handler = read_continue 0 } ∷ []),
          answer_unposted _ err k refl dry ∙ arm-posted r.env millis 0,
        )
    where
      counter : add_uint r.read_counter 1 ≡ 0
      counter = omega arith
