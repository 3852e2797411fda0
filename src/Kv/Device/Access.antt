-- ===== src/Kv/Device/Access.antt =====
-- Reads and writes of project-4/device.c, on a disk that keeps what is written.
use os_cs238p_proj.Common.{
  ℕ, ◌+◌, ◌%◌, ◌<◌, ◌≤◌, ◌==◌, ◌≡◌, ◌≢◌, ◌⊎◌, inl, inr, refl, ap, sym, ◌∙◌, subst, arith, Bool,
  true, false, ltb, Bool-cases, ==_iff, if◌then◌else◌, Option, none, some, List, length,
}
use os_cs238p_proj.Common.Word.{u64_mod, add64_exact}
use os_cs238p_proj.Common.Outcome.{Outcome, ret, abort, out_of_fuel, Gives}
use os_cs238p_proj.Kv.Device.{Disk, Device, is_outside, device_read, whole_write, device_write}

-- What is known of `pread` and `pwrite`. `At s off bytes`: the file has these bytes from `off` on. A
-- read of bytes that the file has fails or is short only where `Fails` holds: it is empty for a disk
-- that always reads, and `Unit` where nothing is known.
pub record IsDisk {S : Type 0} (disk : Disk S) : Type 1 where
  pub At : S → ℕ → List ℕ → Type 0
  pub Fails : Type 0
  pub pwrite-here :
      (s t : S) (buf : List ℕ) (off : ℕ)
      → disk.pwrite buf off s ≡ ret (some (length buf), t)
      → At t off buf
  pub pwrite-other :
      (s t : S) (buf old : List ℕ) (off off' : ℕ) (n : Option ℕ)
      → At s off' old
      → (off' + length old ≤ off) ⊎ (off + length buf ≤ off')
      → disk.pwrite buf off s ≡ ret (n, t)
      → At t off' old
  pub pread-Gives :
      (s : S) (old : List ℕ) (off : ℕ)
      → At s off old
      → Gives Fails (disk.pread off (length old)) s (λ got t.
        (length old ≡ length got → got ≡ old)
        × (length old ≢ length got → Fails)
        × ((off' : ℕ) (old' : List ℕ) → At s off' old' → At t off' old'))

module _ {S : Type 0} (disk : Disk S) (ok : IsDisk disk) where
  -- A write that returns 0
  pub record IsWritten (buf : List ℕ) (off : ℕ) (d d' : Device S) : Type 0 where
    pub size : d'.size ≡ d.size
    pub block : d'.block ≡ d.block
    pub aligned : off % d.block ≡ 0
    pub within : off + length buf ≤ d.size
    pub here : ok.At d'.disk off buf
    pub others :
        (off' : ℕ) (old : List ℕ)
        → ok.At d.disk off' old
        → (off' + length old ≤ off) ⊎ (off + length buf ≤ off')
        → ok.At d'.disk off' old

  pub inside :
      (off len : ℕ) (d : Device S)
      → off + len < u64_mod
      → is_outside disk off len d ≡ false
      → (off % d.block ≡ 0) × (off + len ≤ d.size)
  inside off len d lt h = elim (Bool-cases (off % d.block == 0)) [
    | inr e ↦ absurd (cc (rw e at h))
    | inl e ↦ elim (Bool-cases (len % d.block == 0)) [
      | inr g ↦ absurd (cc (rw (e, g) at h))
      | inl g ↦
          let p = add64_exact off len lt in
          let q : ltb d.size (off + len) ≡ false = rw (e, g, p) at h in
          ((==_iff (off % d.block) 0).0 e, ground (arith, q))
    ]
  ]

  pub device_write-IsWritten :
      (buf : List ℕ) (off : ℕ) (d d' : Device S)
      → off + length buf < u64_mod
      → device_write disk buf off d ≡ ret (true, d')
      → IsWritten buf off d d'
  unfolding device_write
  device_write-IsWritten buf off d d' lt h =
      elim (Bool-cases (is_outside disk off (length buf) d)) [
        | inl e ↦ absurd (cc (rw (e, if◌then◌else◌) at h))
        | inr e ↦
            split (disk.pwrite buf off d.disk) refl (inside off (length buf) d lt e)
              (rw (e, if◌then◌else◌) at h)
      ]
    where
      again : Outcome (Option ℕ × S) → Outcome (Bool × Device S)
      again (ret (n, s)) = ret (whole_write disk (length buf) n, record d { disk = s })
      again abort = abort
      again out_of_fuel = out_of_fuel

      split :
          (x : Outcome (Option ℕ × S))
          → disk.pwrite buf off d.disk ≡ x
          → (off % d.block ≡ 0) × (off + length buf ≤ d.size)
          → again x ≡ ret (true, d')
          → IsWritten buf off d d'
      split (ret (none, s)) e i g = absurd (cc g)
      split (ret (some n, s)) e i g =
          let p : record d { disk = s } ≡ d' = cc g in
          let t : (length buf == n) ≡ true = cc g in
          let q : length buf ≡ n = (==_iff (length buf) n).0 t in
          let e' : disk.pwrite buf off d.disk ≡ ret (some (length buf), s) =
            e ∙ ap (λ x. ret (some x, s)) (sym q) in
          subst (IsWritten buf off d) p (record {
            size = refl;
            block = refl;
            aligned = i.0;
            within = i.1;
            here = ok.pwrite-here d.disk s buf off e';
            others = λ off' old a far. ok.pwrite-other d.disk s buf old off off' (some n) a far e;
          })
      split abort e i g = absurd (cc g)
      split out_of_fuel e i g = absurd (cc g)

  pub device_read-Gives :
      (old : List ℕ) (off : ℕ) (d : Device S)
      → ok.At d.disk off old
      → is_outside disk off (length old) d ≡ false
      → Gives ok.Fails (device_read disk off (length old)) d (λ got d'.
        (got ≡ old)
        × (d'.size ≡ d.size)
        × (d'.block ≡ d.block)
        × ((off' : ℕ) (old' : List ℕ) → ok.At d.disk off' old' → ok.At d'.disk off' old'))
  unfolding device_read
  device_read-Gives old off d a i =
      rw (i, if◌then◌else◌)
        (elim (ok.pread-Gives d.disk old off a) [
          | inl (f, t, e) ↦ inl (f, record d { disk = t }, rw e refl)
          | inr (got, t, e, (same, short, keeps)) ↦ elim (Bool-cases (length old == length got)) [
            | inl g ↦
                let q = same ((==_iff (length old) (length got)).0 g) in
                inr (
                  got,
                  record d { disk = t },
                  rw (e, g, if◌then◌else◌) refl,
                  (q, refl, refl, keeps),
                )
            | inr g ↦ inl (
              short (λ p. cc (sym g ∙ (==_iff (length old) (length got)).1 p)),
              record d { disk = t },
              rw (e, g, if◌then◌else◌) refl,
            )
          ]
        ])
