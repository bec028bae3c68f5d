-- ===== src/Filesystem/Windows/Paths.antt =====
-- src/filesystem/mod.rs: the form of a wide path.
use atomic_blob_storage.Base.{
  ℕ, ◌≡◌, ◌≢◌, refl, ap, ◌∙◌, ◌⊎◌, inl, inr, true, false, ◌||◌, List, [], ◌∷◌, ◌++◌, drop, All,
  All-append, arith, Bool-cases, ◌==◌, if_cases,
}
use atomic_blob_storage.Filesystem.Names.{starts_with}
use atomic_blob_storage.Filesystem.Windows.{
  separator, alternate_separator, verbatim_prefix, device_prefix, unc_prefix, normalize_all,
  wide_path,
}

abbrev pub IsPlain : ℕ → Type 0
IsPlain u = (u == alternate_separator) ≡ false

normalize_all-IsPlain : (us : List ℕ) → All IsPlain (normalize_all us)
normalize_all-IsPlain [] = tt
normalize_all-IsPlain (u ∷ us) = (ground arith, normalize_all-IsPlain us)

starts_with-normalize_all :
    (p us t : List ℕ)
    → All IsPlain p
    → starts_with p us ≡ true
    → starts_with p (normalize_all us ++ t) ≡ true
starts_with-normalize_all [] us t h s = refl
starts_with-normalize_all (b ∷ p) [] t h s = absurd (ground arith)
starts_with-normalize_all (b ∷ p) (u ∷ us) t h s =
    ground (arith, h.0, starts_with-normalize_all p us t h.1)

-- The path has a prefix that turns off the limits on a path, and no alternate separator.
abbrev pub IsExtended : List ℕ → Type 0
IsExtended us =
    ((starts_with verbatim_prefix us ≡ true) ⊎ (starts_with device_prefix us ≡ true))
    × All IsPlain us

wide_path-IsExtended : (path : List ℕ) → IsExtended (wide_path path)
unfolding wide_path
wide_path-IsExtended path =
    if_cases (λ (p : List ℕ × List ℕ). IsExtended (p.0 ++ (normalize_all p.1 ++ (0 ∷ []))))
      (starts_with verbatim_prefix path || starts_with device_prefix path) _ _
      (λ extended. (
        elim (Bool-cases (starts_with verbatim_prefix path)) [
          | inl v ↦ inl (starts_with-normalize_all verbatim_prefix path (0 ∷ []) plain_verbatim v)
          | inr v ↦
              inr
                (starts_with-normalize_all device_prefix path (0 ∷ []) plain_device (ground arith))
        ],
        ended path,
      ))
      (λ bare.
        if_cases (λ (p : List ℕ × List ℕ). IsExtended (p.0 ++ (normalize_all p.1 ++ (0 ∷ []))))
          (starts_with (separator ∷ separator ∷ []) path) _ _
          (λ unc. (
            inl refl,
            All-append IsPlain unc_prefix (normalize_all (drop 2 path) ++ (0 ∷ [])) plain_unc
                (ended (drop 2 path)),
          ))
          (λ other. (
            inl refl,
            All-append IsPlain verbatim_prefix (normalize_all path ++ (0 ∷ [])) plain_verbatim
                (ended path),
          )))
  where
    ended : (us : List ℕ) → All IsPlain (normalize_all us ++ (0 ∷ []))
    ended us = All-append IsPlain (normalize_all us) (0 ∷ []) (normalize_all-IsPlain us) (refl, tt)

    plain_unc : All IsPlain unc_prefix
    plain_unc = (refl, (refl, (refl, (refl, (refl, (refl, (refl, (refl, tt))))))))

    plain_verbatim : All IsPlain verbatim_prefix
    plain_verbatim = (refl, (refl, (refl, (refl, tt))))

    plain_device : All IsPlain device_prefix
    plain_device = (refl, (refl, (refl, (refl, tt))))

-- Unit by unit, "/" has become "\\", and nothing else has changed.
pub data Backslashed : List ℕ → List ℕ → Type 0 where
  ended : Backslashed [] []
  slash : (us vs : List ℕ) → Backslashed us vs → Backslashed (47 ∷ us) (92 ∷ vs)
  other : (u : ℕ) (us vs : List ℕ) → u ≢ 47 → Backslashed us vs → Backslashed (u ∷ us) (u ∷ vs)

-- The path behind a prefix, and the NUL behind it.
abbrev pub Behind : List ℕ → List ℕ → List ℕ → Type 0
Behind prefix rest wide = (vs : List ℕ) × Backslashed rest vs × (wide ≡ prefix ++ (vs ++ (0 ∷ [])))

-- "\\?\" and "\\.\" stand before a path already.
abbrev pub HasPrefix : List ℕ → Type 0
HasPrefix path =
    ((rest : List ℕ) × (path ≡ 92 ∷ 92 ∷ 63 ∷ 92 ∷ rest))
    ⊎ ((rest : List ℕ) × (path ≡ 92 ∷ 92 ∷ 46 ∷ 92 ∷ rest))

-- A path with a prefix keeps it; of a path on a server, "\\" gives way to "\\?\UNC\"; and any other
-- path is put behind "\\?\".
abbrev pub Extends : List ℕ → List ℕ → Type 0
Extends path wide =
    (HasPrefix path × Behind [] path wide)
    ⊎ ((¬ HasPrefix path)
        × ((rest : List ℕ) × (path ≡ 92 ∷ 92 ∷ rest)
            × Behind (92 ∷ 92 ∷ 63 ∷ 92 ∷ 85 ∷ 78 ∷ 67 ∷ 92 ∷ []) rest wide))
    ⊎ (((rest : List ℕ) → path ≢ 92 ∷ 92 ∷ rest) × Behind (92 ∷ 92 ∷ 63 ∷ 92 ∷ []) path wide)

normalize_all-Backslashed : (us : List ℕ) → Backslashed us (normalize_all us)
normalize_all-Backslashed [] = ended
normalize_all-Backslashed (u ∷ us) = elim (Bool-cases (u == alternate_separator)) [
  | inl e ↦
      let same : u ≡ 47 = ground arith in
      rw same (slash us (normalize_all us) (normalize_all-Backslashed us))
  | inr e ↦ rw e (other u us (normalize_all us) (ground arith) (normalize_all-Backslashed us))
]

starts_with-cons :
    (a : ℕ) (p us : List ℕ)
    → starts_with (a ∷ p) us ≡ true
    → (vs : List ℕ) × (us ≡ a ∷ vs) × (starts_with p vs ≡ true)
starts_with-cons a p [] h = absurd (ground arith)
starts_with-cons a p (u ∷ us) h =
    let same : u ≡ a = ground arith in (us, ap (λ x. x ∷ us) same, ground arith)

starts_with-append : (p us : List ℕ) → starts_with p us ≡ true → (rest : List ℕ) × (us ≡ p ++ rest)
starts_with-append [] us h = (us, refl)
starts_with-append (a ∷ p) us h =
    let (vs, e, h') = starts_with-cons a p us h in
    let (rest, e') = starts_with-append p vs h' in (rest, e ∙ ap (λ l. a ∷ l) e')

append-starts_with : (p rest : List ℕ) → starts_with p (p ++ rest) ≡ true
append-starts_with [] rest = refl
append-starts_with (a ∷ p) rest = ground (arith, append-starts_with p rest)

-- A path with the verbatim or the device prefix keeps it; of another path that starts with two
-- backslashes, the verbatim UNC prefix takes their place; any other path is put behind the
-- verbatim prefix. In what stands behind a prefix that was added, or in the whole path where none
-- was, every slash is a backslash and nothing else has changed, and a NUL is at the end. The
-- result has the verbatim or the device prefix, and no slash.
pub wide_path-Extends :
    (path : List ℕ) → Extends path (wide_path path) × IsExtended (wide_path path)
unfolding wide_path
wide_path-Extends path = (
  elim (Bool-cases (starts_with verbatim_prefix path)) [
    | inl v ↦ inl (
      inl (starts_with-append verbatim_prefix path v),
      rw (v, wide_path) (normalize_all path, normalize_all-Backslashed path, refl),
    )
    | inr v ↦ elim (Bool-cases (starts_with device_prefix path)) [
      | inl d ↦ inl (
        inr (starts_with-append device_prefix path d),
        rw (v, d, wide_path) (normalize_all path, normalize_all-Backslashed path, refl),
      )
      | inr d ↦ bare v d
    ]
  ],
  wide_path-IsExtended path,
)
  where
    without :
        starts_with verbatim_prefix path ≡ false
        → starts_with device_prefix path ≡ false
        → ¬ HasPrefix path
    without v d (inl (rest, e)) = absurd (
        ground (arith, ap (starts_with verbatim_prefix) e, append-starts_with verbatim_prefix rest))
    without v d (inr (rest, e)) =
        absurd
          (ground (arith, ap (starts_with device_prefix) e, append-starts_with device_prefix rest))

    bare :
        starts_with verbatim_prefix path ≡ false
        → starts_with device_prefix path ≡ false
        → Extends path (wide_path path)
    bare v d = elim (Bool-cases (starts_with (separator ∷ separator ∷ []) path)) [
      | inl u ↦
          let (rest, e) = starts_with-append (separator ∷ separator ∷ []) path u in
          inr (
            inl (
              without v d,
              (
                rest,
                e,
                rw (v, d, u, wide_path)
                    (rw e (normalize_all rest, normalize_all-Backslashed rest, refl)),
              ),
            ))
      | inr u ↦ inr (
          inr (
            (λ rest e. absurd (
                ground (
                  arith,
                  ap (starts_with (separator ∷ separator ∷ [])) e,
                  append-starts_with (separator ∷ separator ∷ []) rest,
                ))),
            rw (v, d, u, wide_path) (normalize_all path, normalize_all-Backslashed path, refl),
          ))
    ]
