-- ===== src/Kv/Logfs/Read.antt =====
-- The blocks in the queue and on the device, for project-4/logfs.c.
use os_cs238p_proj.Common.{
  ℕ, zero, suc, ◌+◌, ◌%◌, ◌<◌, ◌≤◌, ◌==◌, ◌≡◌, ◌≢◌, inl, inr, refl, ap, sym, ◌∙◌, subst, arith,
  false, ltb, Bool-cases, ==_iff, if_true, if_false, none, some, Option-cases, List, length,
}
use os_cs238p_proj.Common.Word.{add64_exact}
use os_cs238p_proj.Common.Outcome.{Gives}
use os_cs238p_proj.Kv.Log.{log_max}
use os_cs238p_proj.Kv.Device.{Disk, Device, device_read, is_outside}
use os_cs238p_proj.Kv.Device.Access.{IsDisk, device_read-Gives}
use os_cs238p_proj.Kv.Logfs.{Block, Logfs, scan, check_in_wcache, on_device, load_flushed}
use os_cs238p_proj.Kv.Logfs.Blocks.{Aligned, Aligned-mod, part, length-part}
use os_cs238p_proj.Kv.Logfs.State.{Cached, IsQueue, IsCurrent}
use os_cs238p_proj.Kv.Logfs.Rounds.{three, OnlyQueue}

scan-some :
    (cache : ℕ → Block) (blk n i : ℕ) (buf : List ℕ)
    → scan cache blk n i ≡ some buf
    → (j : ℕ) × (j < i + n) × ((cache j).blk ≡ blk) × ((cache j).buf ≡ buf)
unfolding scan
scan-some cache blk zero i buf h = absurd (cc h)
scan-some cache blk (suc n) i buf h = elim (Bool-cases ((cache i).blk == blk)) [
  | inl e ↦
      let q : (cache i).buf ≡ buf = cc (sym (if_true ((cache i).blk == blk) _ _ e) ∙ h) in
      (i, omega arith, (==_iff (cache i).blk blk).0 e, q)
  | inr e ↦
      let (j, lt, p, q) =
        scan-some cache blk n (i + 1) buf (sym (if_false ((cache i).blk == blk) _ _ e) ∙ h) in
      (j, omega arith, p, q)
]

scan-none :
    (cache : ℕ → Block) (blk n i j : ℕ)
    → scan cache blk n i ≡ none
    → i ≤ j
    → j < i + n
    → (cache j).blk ≢ blk
unfolding scan
scan-none cache blk zero i j h le lt q = absurd (omega arith)
scan-none cache blk (suc n) i j h le lt q = elim (Bool-cases ((cache i).blk == blk)) [
  | inl e ↦ cc (sym (if_true ((cache i).blk == blk) _ _ e) ∙ h)
  | inr e ↦
      let g = sym (if_false ((cache i).blk == blk) _ _ e) ∙ h in
      elim (Bool-cases (i == j)) [
        | inl z ↦ cc (
            sym e
            ∙ ap (λ x. (cache x).blk == blk) ((==_iff i j).0 z)
            ∙ (==_iff (cache j).blk blk).1 q)
        | inr z ↦
            let ne : i ≢ j = λ p. cc (sym z ∙ (==_iff i j).1 p) in
            scan-none cache blk n (i + 1) j g (omega arith) (omega arith) q
      ]
]

module _ {S : Type 0} (disk : Disk S) (ok : IsDisk disk) where
  -- What the log stands for, between two calls
  pub record IsLogfs (fs : Logfs S) (bytes : List ℕ) : Type 0 where
    pub queue : IsQueue disk ok fs bytes
    pub start : ℕ
    pub current : IsCurrent fs bytes start
    pub cached : (i : ℕ) → Cached fs.blk_sz bytes i (fs.rcache i)

  -- A block that is in the queue, or on the device
  pub load_flushed-Gives :
      (fs : Logfs S) (bytes : List ℕ) (o : ℕ)
      → IsQueue disk ok fs bytes
      → length bytes < log_max
      → Aligned fs.blk_sz o
      → o + fs.blk_sz ≤ length bytes
      → Gives ok.Fails
          (load_flushed disk o)
          fs
          (λ buf fs'. (buf ≡ part bytes fs.blk_sz o) × IsQueue disk ok fs' bytes × OnlyQueue fs fs')
  unfolding check_in_wcache
  load_flushed-Gives fs bytes o v small al l = elim (Option-cases (check_in_wcache o fs)) [
    | inr (buf, e) ↦
        let (j, lt, p, q) = scan-some fs.wcache o 32 0 buf e in
        rw (e, load_flushed) (inr (buf, fs, refl, (sym q ∙ cached_part j lt p, v, refl)))
    | inl e ↦
        rw (e, load_flushed)
          (elim (v.stored o al l) [
            | inl (j, lt, p) ↦ absurd (scan-none fs.wcache o 32 0 j e (omega arith) (omega arith) p)
            | inr (a, r) ↦ from_device a r
          ])
  ]
    where
      n : ℕ
      n = fs.blk_sz

      cached_part : (j : ℕ) → j < 32 → (fs.wcache j).blk ≡ o → (fs.wcache j).buf ≡ part bytes n o
      cached_part j lt p = elim (v.slots j lt) [
        | inl (z, _) ↦ absurd (three n v.large (subst (Aligned n) (sym p ∙ z) al))
        | inr (_, _, q) ↦ q ∙ ap (part bytes n) p
      ]

      len : length (part bytes n o) ≡ n
      len = length-part bytes n o l

      from_device :
          ok.At fs.device.disk o (part bytes n o)
          → o + n ≤ fs.device.size
          → Gives ok.Fails
              (on_device (device_read disk o n))
              fs
              (λ buf fs'. (buf ≡ part bytes n o) × IsQueue disk ok fs' bytes × OnlyQueue fs fs')
      from_device a r =
          elim (device_read-Gives disk ok (part bytes n o) o fs.device a
            (ap (λ x. is_outside disk o x fs.device) len ∙ fine r)) [
              | inl (f, d, e) ↦ inl (
                f,
                record fs { device = d },
                rw (ap (λ x. device_read disk o x fs.device) (sym len) ∙ e, on_device) refl,
              )
              | inr (buf, d, e, (q, sz, bl, keeps)) ↦ inr (
                buf,
                record fs { device = d },
                rw (ap (λ x. device_read disk o x fs.device) (sym len) ∙ e, on_device) refl,
                (q, kept d sz bl keeps, refl),
              )
            ]
        where
          fine : o + n ≤ fs.device.size → is_outside disk o n fs.device ≡ false
          fine r =
              let z : o % fs.device.block ≡ 0 = ap (λ x. o % x) v.block ∙ Aligned-mod n o al in
              let z' : n % fs.device.block ≡ 0 =
                ap (λ x. n % x) v.block ∙ Aligned-mod n n (1, omega arith) in
              let p = add64_exact o n (omega (arith, l, small)) in
              let t : ltb fs.device.size (o + n) ≡ false = ground (arith, r) in
              rw (z, z', p, t) refl

          kept :
              (d : Device S)
              → d.size ≡ fs.device.size
              → d.block ≡ fs.device.block
              → ((o' : ℕ) (old : List ℕ) → ok.At fs.device.disk o' old → ok.At d.disk o' old)
              → IsQueue disk ok (record fs { device = d }) bytes
          kept d sz bl keeps = record {
            large = v.large;
            narrow = v.narrow;
            block = bl ∙ v.block;
            head = v.head;
            tail = v.tail;
            active = v.active;
            slots = v.slots;
            stored = λ o' a' h. elim (v.stored o' a' h) [
              | inl q ↦ inl q
              | inr (q, r') ↦ inr (keeps o' (part bytes n o') q, omega (arith, r', sz))
            ];
            idle = λ j lt h a'.
                let (q, r') = v.idle j lt h a' in
                (keeps (fs.wcache j).blk (part bytes n (fs.wcache j).blk) q, omega (arith, r', sz));
          }
