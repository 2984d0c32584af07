-- ===== src/PromptProof/Pool/Serving.antt =====
-- Until Close, a call of Scan in gateway/promptproof.go that waits can always be served.
use mcp_gateway_lite.Base.{
  ℕ, zero, suc, ◌<◌, false, Bytes, ◌≡◌, ◌≢◌, refl, List, [], ◌∷◌, ◌++◌, All, length, arith, subst,
  ap, sym, ◌∙◌,
}
use mcp_gateway_lite.Codec.{Codec}
use mcp_gateway_lite.PromptProof.{ScanReply}
use mcp_gateway_lite.PromptProof.Process.{Os, Proc, Start, Exchange}
use mcp_gateway_lite.PromptProof.Pool.{
  pool_ready, start_pool, Scanning, waiting, holding, replied, ending, returning, finished, take,
  run_scan, see_open, give_back, Pool, pick, Reach, here, later, fresh_pool,
}
use mcp_gateway_lite.PromptProof.Pool.Counts.{sum, All-middle, held, Aware}
use mcp_gateway_lite.PromptProof.Pool.Invariant.{Inv}
use mcp_gateway_lite.PromptProof.Pool.Startup.{start_pool-Inv}

-- `x` stands at place `i`.
abbrev pub At {ℓ} : {A : Type ℓ} → ℕ → A → List A → Type ℓ
At {A} i x xs =
    (before : List A) × (after : List A) × (xs ≡ before ++ x ∷ after) × (length before ≡ i)

-- Where another element is replaced, an element stays at its place.
pub replace-At {ℓ} :
    {A : Type ℓ} {x y : A} (z : A)
    → x ≢ y
    → (b after c rest : List A) → b ++ x ∷ after ≡ c ++ y ∷ rest
    → At (length c) y (b ++ z ∷ after)
replace-At z ne [] after [] rest e = absurd (ne (ground arith))
replace-At z ne [] after (w ∷ c) rest e = (z ∷ c, rest, ground arith, refl)
replace-At z ne (v ∷ b) after [] rest e = ([], b ++ z ∷ after, ground arith, refl)
replace-At z ne (v ∷ b) after (w ∷ c) rest e =
    let (before, tail, same, len) = replace-At z ne b after c rest (ground arith) in
    (v ∷ before, tail, ground arith, ground arith)

-- Some call holds a process, if any process is held.
holder :
    (scans : List Scanning)
    → 0 < sum held scans
    → (before : List Scanning) × (after : List Scanning) × (pc : Scanning) × (scans
        ≡ before ++ pc ∷ after)
      × (0 < held pc)
holder [] h = absurd (omega (arith, h))
holder (pc ∷ scans) h = found (held pc) refl (λ k. holder scans (omega (arith, h, k)))
  where
    found :
        (n : ℕ)
        → held pc ≡ n
        → (held pc ≡ 0
            → (before : List Scanning) × (after : List Scanning) × (x : Scanning) × (scans
                ≡ before ++ x ∷ after)
              × (0 < held x))
        → (before : List Scanning) × (after : List Scanning) × (x : Scanning) × (pc ∷ scans
            ≡ before ++ x ∷ after)
          × (0 < held x)
    found zero e later_on =
        let (before, after, x, same, k) = later_on e in
        (pc ∷ before, after, x, ap (λ xs. pc ∷ xs) same, k)
    found (suc n) e later_on = ([], scans, pc, refl, omega (arith, e))

-- A call has given a process back.
abbrev Returned : Codec → ℕ → Pool → List Scanning → List Scanning → Type 0
Returned codec size s before after =
    (t : Pool) × (p : Proc) × (r : ScanReply) × Reach codec size s t
    × (t.mem.idle ≡ s.mem.idle ++ p ∷ [])
    × (t.scans ≡ before ++ finished r ∷ after)

-- The call at place `i` can come to hold a process.
abbrev pub Served : Codec → ℕ → Pool → ℕ → Bytes → Type 0
Served codec size s i content =
    (t : Pool) × (p : Proc) × Reach codec size s t × At i (holding content p) t.scans

module _ (codec : Codec) (size : ℕ) where
  sent :
      {s : Pool} (p : Proc) (r : ScanReply) (before after : List Scanning) (t : Pool)
      → Reach codec size s t
      → t.scans ≡ before ++ returning r p ∷ after
      → t.mem.idle ≡ s.mem.idle
      → length t.mem.idle < size
      → Returned codec size s before after
  sent p r before after t reach e same room = (
    _,
    p,
    r,
    later reach (pick before after e (give_back room)),
    ap (λ xs. xs ++ p ∷ []) same,
    refl,
  )

  looked :
      {s : Pool} (p : Proc) (r : ScanReply) (before after : List Scanning) (t : Pool)
      → Reach codec size s t
      → t.scans ≡ before ++ replied r p ∷ after
      → t.mem.idle ≡ s.mem.idle
      → length t.mem.idle < size
      → t.mem.closed ≡ false
      → Returned codec size s before after
  looked p r before after t reach e same room o =
      sent p r before after _ (later reach (pick before after e (see_open o))) refl same room

  gives_back :
      (a : Start) (serve : Bytes → Exchange) (s : Pool) (pc : Scanning)
      (before after : List Scanning)
      → 0 < held pc
      → s.scans ≡ before ++ pc ∷ after
      → s.mem.closed ≡ false
      → Aware s.mem.closed pc
      → length s.mem.idle < size
      → Returned codec size s before after
  gives_back a serve s (waiting c) before after h e o w room = absurd (omega (arith, h))
  gives_back a serve s (holding c p) before after h e o w room =
      looked _ _ before after _ (later here (pick before after e (run_scan a serve))) refl refl room
        o
  gives_back a serve s (replied r p) before after h e o w room =
      looked p r before after s here e refl room o
  gives_back a serve s (ending r p) before after h e o w room = absurd (ground (arith, o, w))
  gives_back a serve s (returning r p) before after h e o w room =
      sent p r before after s here e refl room
  gives_back a serve s (finished r) before after h e o w room = absurd (omega (arith, h))

  -- With a process in the channel, a waiting call takes it.
  takes :
      {s : Pool} (t : Pool) (i : ℕ) (content : Bytes) (p : Proc) (rest : List Proc)
      → Reach codec size s t
      → t.mem.idle ≡ p ∷ rest
      → At i (waiting content) t.scans
      → Served codec size s i content
  takes t i content p rest reach e place =
      let (before, after, same, len) = place in
      (_, p, later reach (pick before after same (take e)), (before, after, refl, len))

  serves :
      {c d : ℕ} (a : Start) (serve : Bytes → Exchange) (s : Pool) (idle : List Proc)
      → s.mem.idle ≡ idle
      → (i : ℕ) (content : Bytes) → 0 < size
      → Inv c d size s
      → s.mem.closed ≡ false
      → At i (waiting content) s.scans
      → Served codec size s i content
  serves a serve s (p ∷ rest) e i content pos w o place = takes s i content p rest here e place
  serves a serve s [] e i content pos w o place =
      let (before, after, pc, same, some_held) =
        holder s.scans (ground (arith, w.whole o, ap length e, pos)) in
      let (t, p, r, reach, filled, replaced) =
        gives_back a serve s pc before after some_held same o
          (All-middle (Aware s.mem.closed) before pc after
            (subst (All (Aware s.mem.closed)) same w.aware))
          (ground (arith, ap length e, pos)) in
      let (b, rest, found, len) = place in
      takes t i content p [] reach (filled ∙ ap (λ xs. xs ++ p ∷ []) e) (
        subst (λ k. At k (waiting content) t.scans) len
          (subst (At (length b) (waiting content)) (sym replaced) (
            replace-At (finished r) (λ q. omega (arith, some_held, ap held q)) before after b rest
              (sym same ∙ found))))

-- Until Close is called, a call of Scan that waits for a process can always be served, whatever
-- starts and coprocesses do: there is a sequence of steps after which it holds one, at its place
-- among the calls.
pub scan-Served :
    {codec : Codec} (n : ℕ) (attempt : ℕ → Start) (os : Os) {pool : List Proc} {ready : Os}
    {s : Pool} (a : Start) (serve : Bytes → Exchange) (i : ℕ) (content : Bytes)
    → start_pool n attempt [] os ≡ pool_ready pool ready
    → Reach codec n (fresh_pool pool ready) s
    → 0 < n
    → s.mem.closed ≡ false
    → At i (waiting content) s.scans
    → Served codec n s i content
scan-Served {codec} n attempt os {s} a serve i content h r pos o place =
    serves codec n a serve s s.mem.idle refl i content pos (start_pool-Inv n attempt os h r) o place
