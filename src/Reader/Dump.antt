-- ===== src/Reader/Dump.antt =====
-- src/StreamReader.cpp, `enable_dump` and `dump_callback`: what the record of a reader's bytes holds.
use mathlib.Core.Bool.{not}
use rtac_asio.Prelude.{
  ℕ, ◌≡◌, ◌⊎◌, refl, sym, ap, Bool, true, false, ◌&&◌, none, some, List, [], ◌++◌, append-nil,
  if◌then◌else◌, ◌==◌, inl, inr, length, Bool-cases, Option-cases,
}
use rtac_asio.Memory.{fill, peek-fill}
use rtac_asio.Service.{ErrorCode, success, put_file}
use rtac_asio.Reader.{Reader, dump_bytes, dump_enabled, enable_dump}

module _ {B : Type 0} where
  abbrev pub dumps_to : Reader B → ℕ → Bool
  dumps_to r f = elim r.rx_dump [ none ↦ false | some name ↦ name == f ]

  -- The stream has put `bs` at `a` for an operation with that buffer. Where there was no error, the file
  -- of an open dump gets exactly these bytes, behind what it held; with an error it gets nothing, and no
  -- other file changes.
  pub dump_bytes_lem :
      (r : Reader B) (a : ℕ) (bs : List ℕ) (err : ErrorCode) (f : ℕ)
      → (dump_bytes
            (record r { env = record r.env { mem = fill r.mem a bs } })
            a
            err
            (length bs)).files
          f
        ≡ r.files f ++ (if err == success && dumps_to r f then bs else [])
  unfolding dump_bytes
  dump_bytes_lem r a bs err f = elim (Bool-cases (err == success)) [
    | inr bad ↦ rw bad (sym (append-nil (r.files f)))
    | inl good ↦ rw good (elim (Option-cases r.rx_dump) [
      | inl off ↦ rw off (sym (append-nil (r.files f)))
      | inr (name, on) ↦ rw on (elim (Bool-cases (name == f)) [
        | inl same ↦ rw same (ap (◌++◌ (r.files f)) (peek-fill r.mem a bs))
        | inr other ↦ rw other (sym (append-nil (r.files f)))
      ])
    ])
  ]

  -- A dump is opened when none is open and the operating system opens the file, which is emptied, if
  -- not opened to append, while no other file changes. In every other case nothing changes: a second
  -- `enable_dump` has no effect.
  pub enable_dump_lem :
      (r : Reader B) (name : ℕ) (append opens : Bool)
      → let r' = enable_dump r name append opens in
        ((r.rx_dump ≡ none)
          × (opens ≡ true)
          × (r'.rx_dump ≡ some name)
          × ((f : ℕ) → r'.files f ≡ (if name == f && not append then [] else r.files f)))
        ⊎ (((opens ≡ false) ⊎ (dump_enabled r ≡ true)) × (r' ≡ r))
  unfolding enable_dump dump_enabled
  enable_dump_lem r name append opens = elim (Option-cases r.rx_dump) [
    | inr (old, on) ↦ inr (inr (rw on refl), rw on refl)
    | inl off ↦ elim (Bool-cases opens) [
      | inr stuck ↦ inr (inl stuck, rw stuck (rw off refl))
      | inl able ↦ inl (off, able, rw (off, able) refl, λ f. rw (off, able) (holds append f))
    ]
  ]
    where
      holds :
          (b : Bool) (f : ℕ)
          → (if b then r.files else put_file r.files name []) f
            ≡ (if name == f && not b then [] else r.files f)
      holds true f = elim (Bool-cases (name == f)) [ inl e ↦ rw e refl | inr e ↦ rw e refl ]
      holds false f = elim (Bool-cases (name == f)) [ inl e ↦ rw e refl | inr e ↦ rw e refl ]
