-- ===== src/MemoryScrub/Escalation.antt =====
-- `memory_scrub_record_seu`: five upsets outside SAFE ask for DEGRADED.
use space_baremetal_skeleton.Common.{
  ℕ, zero, suc, ◌+◌, ◌^◌, ◌<◌, ◌≡◌, ◌≢◌, refl, ap, ap₂, ◌∙◌, true, arith, leb,
}
use space_baremetal_skeleton.Common.Words.{u32}
use space_baremetal_skeleton.Kernel.{Board}
use space_baremetal_skeleton.States.{SystemState, degraded, safe}
use space_baremetal_skeleton.Firmware.{Firmware}
use space_baremetal_skeleton.SystemState.{request_change}
use space_baremetal_skeleton.SafePolicy.{allows_seu_escalation}
use space_baremetal_skeleton.MemoryScrub.{record_seu}

-- `n` upsets, one after the other.
unfoldable pub repeat_seu : Board → ℕ → Firmware → Firmware
repeat_seu b zero s = s
repeat_seu b (suc n) s = repeat_seu b n (record_seu b s)

-- The firmware with `n` upsets counted, in both counts.
abbrev pub counted : ℕ → Firmware → Firmware
counted n s = record s { seu_total = u32 (s.seu_total + n); seu_counter = s.seu_counter + n }

escalates : (state : SystemState) → state ≢ safe → allows_seu_escalation state ≡ true
unfolding allows_seu_escalation
escalates SystemState.boot h = refl
escalates SystemState.nominal h = refl
escalates SystemState.degraded h = refl
escalates SystemState.safe h = absurd (h refl)

record_seu-counted :
    (b : Board) (s : Firmware) → s.state ≢ safe → s.seu_counter < 4 → record_seu b s ≡ counted 1 s
unfolding record_seu
record_seu-counted b s h small = rw (escalates s.state h) (ground arith)

record_seu-requests :
    (b : Board) (s : Firmware)
    → s.state ≢ safe
    → s.seu_counter ≡ 4
    → record_seu b s ≡ record (request_change b degraded 0x02 (counted 1 s)).0 { seu_counter = 0 }
unfolding record_seu
record_seu-requests b s h four =
    let exact : u32 (s.seu_counter + 1) ≡ s.seu_counter + 1 = omega arith in
    let reached : leb 5 (s.seu_counter + 1) ≡ true = ground arith in
    rw (escalates s.state h, exact, reached)

counted_same :
    (s : Firmware) (t t' c c' : ℕ)
    → t ≡ t'
    → c ≡ c'
    → (record s { seu_total = t; seu_counter = c })
      ≡ (record s { seu_total = t'; seu_counter = c' })
counted_same s t t' c c' e f = ap₂ (λ x y. record s { seu_total = x; seu_counter = y }) e f

counted-counted : (m n : ℕ) (s : Firmware) → counted n (counted m s) ≡ counted (m + n) s
counted-counted m n s = counted_same s _ _ _ _ (omega arith) (omega arith)

repeat_seu-counted :
    (b : Board) (n : ℕ) (s : Firmware)
    → s.state ≢ safe
    → s.seu_counter + n < 5
    → s.seu_total < 2 ^ 32
    → repeat_seu b n s ≡ counted n s
unfolding repeat_seu
repeat_seu-counted b zero s h few range =
    counted_same s s.seu_total _ s.seu_counter _ (omega arith) (omega arith)
repeat_seu-counted b (suc n) s h few range =
    ap (repeat_seu b n) (record_seu-counted b s h (omega arith))
    ∙ repeat_seu-counted b n (counted 1 s) h (omega arith) (omega arith)
    ∙ counted-counted 1 n s
    ∙ ap (λ k. counted k s) (omega arith)

-- The last upset, apart.
repeat_seu-last :
    (b : Board) (n : ℕ) (s : Firmware) → repeat_seu b (suc n) s ≡ record_seu b (repeat_seu b n s)
unfolding repeat_seu
repeat_seu-last b zero s = refl
repeat_seu-last b (suc n) s = repeat_seu-last b n (record_seu b s)

-- Outside SAFE, with the counter at 0 and the total below 2 ^ 32, fewer than five upsets only
-- count, and the fifth requests DEGRADED with reason 2 once and starts the counter again.
pub repeat_seu-escalates :
    (b : Board) (s : Firmware)
    → s.state ≢ safe
    → s.seu_counter ≡ 0
    → s.seu_total < 2 ^ 32
    → ((n : ℕ) → n < 5 → repeat_seu b n s ≡ counted n s)
      × (repeat_seu b 5 s
          ≡ record (request_change b degraded 0x02 (counted 5 s)).0 { seu_counter = 0 })
repeat_seu-escalates b s h none_yet range = (
  λ n few. repeat_seu-counted b n s h (omega arith) range,
  repeat_seu-last b 4 s
      ∙ ap (record_seu b) (repeat_seu-counted b 4 s h (omega arith) range)
      ∙ record_seu-requests b (counted 4 s) h (omega arith)
      ∙ ap (λ u. record (request_change b degraded 0x02 u).0 { seu_counter = 0 })
          (counted-counted 4 1 s),
)
