-- ===== src/Service/Files.antt =====
-- The file of a dump: the loops of `dump_callback` in src/StreamReader.cpp and src/StreamWriter.cpp.
use rtac_asio.Prelude.{
  ℕ, ◌≡◌, refl, sym, fun_ext, false, Option, none, some, List, [], ◌++◌, ◌==◌, if◌then◌else◌,
  append-nil, append_assoc, Bool-cases, inl, inr,
}
use rtac_asio.Service.{append_file}

-- The files when an open dump has got `bs`.
abbrev pub logged : Option ℕ → (ℕ → List ℕ) → List ℕ → ℕ → List ℕ
logged none fs bs = fs
logged (some name) fs bs = append_file fs name bs

-- A file gets the bytes when the dump has it open.
pub logged_lem :
    (o : Option ℕ) (fs : ℕ → List ℕ) (bs : List ℕ) (f : ℕ)
    → logged o fs bs f
      ≡ fs f ++ (if elim o [ none ↦ false | some name ↦ name == f ] then bs else [])
logged_lem none fs bs f = sym (append-nil (fs f))
logged_lem (some name) fs bs f = elim (Bool-cases (name == f)) [
  | inl same ↦ rw same refl
  | inr other ↦ rw other (sym (append-nil (fs f)))
]

pub logged-nil : (o : Option ℕ) (fs : ℕ → List ℕ) → logged o fs [] ≡ fs
logged-nil none fs = refl
logged-nil (some name) fs = fun_ext (λ f. elim (Bool-cases (name == f)) [
  | inl same ↦ rw same (append-nil (fs f))
  | inr other ↦ rw other refl
])

pub logged-append :
    (o : Option ℕ) (fs : ℕ → List ℕ) (xs ys : List ℕ)
    → logged o (logged o fs xs) ys ≡ logged o fs (xs ++ ys)
logged-append none fs xs ys = refl
logged-append (some name) fs xs ys = fun_ext (λ f. elim (Bool-cases (name == f)) [
  | inl same ↦ rw same (append_assoc (fs f) xs ys)
  | inr other ↦ rw other refl
])
