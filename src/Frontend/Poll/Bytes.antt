-- ===== src/Frontend/Poll/Bytes.antt =====
-- `fmtBytes` of app/dashboard/page.tsx and the kilobytes of app/metrics/page.tsx.
use quark_cache.Common.{ℕ, ◌+◌, ◌*◌, ◌^◌, ◌≤◌, ◌<◌, ◌≡◌, arith, lt→ltb, le→ltb}
use quark_cache.Common.Text.{◌+++◌}
use quark_cache.Frontend.Poll.Dashboard.{fmt_bytes, fixed1, tenths}
use quark_cache.Frontend.Poll.Metrics.{round_kb}

-- The tenths shown for `n / 1024` are within half a tenth of it.
tenths-near :
    (b : ℕ) → (1024 * tenths b 1024 ≤ 10 * b + 512) × (10 * b ≤ 1024 * tenths b 1024 + 512)
unfolding tenths
tenths-near b = (omega arith, omega arith)

-- From one kilobyte up to a megabyte `fmtBytes` shows kilobytes with one decimal, which is nearest
-- to the exact value: off by at most a twentieth. It reaches from 1.0 up to 1024.0.
pub fmt_bytes-kb :
    (b : ℕ)
    → 1024 ≤ b
    → b < 1024 ^ 2
    → (t : ℕ) × (fmt_bytes b ≡ fixed1 t +++ " KB")
      × (10 ≤ t)
      × (t ≤ 10240)
      × (1024 * t ≤ 10 * b + 512)
      × (10 * b ≤ 1024 * t + 512)
unfolding fmt_bytes
fmt_bytes-kb b h k =
    let (above, below) = tenths-near b in
    (
      tenths b 1024,
      rw (le→ltb b 1024 h, lt→ltb b (1024 ^ 2) k),
      omega arith,
      omega arith,
      above,
      below,
    )

-- The metrics page's kilobytes are the nearest whole number.
pub round_kb-near : (n : ℕ) → (1024 * round_kb n ≤ n + 512) × (n < 1024 * round_kb n + 512)
unfolding round_kb
round_kb-near n = (omega arith, omega arith)
