-- ===== src/Protocol/Generator.antt =====
-- server/internal/protocol/padding.go: `PaddingGenerator`. Its goroutine is a count of running loops;
-- closing a channel that is closed panics.
use ligend.Prelude.{
  ℕ, suc, ◌+◌, ◌%◌, ◌≤◌, ◌<◌, ◌≡◌, refl, inl, inr, Bool, true, false, not, List, [], ◌∷◌, Option,
  none, some, bit_or, length, All, ◌==◌, if◌then◌else◌, Bool-cases, arith,
}
use ligend.Prelude.Outcome.{Outcome, ok, panic, ◌>>=◌}
use ligend.Prelude.Bytes.{Bytes, length-random_bytes}
use ligend.Protocol.Frame.{
  Frame, Rng, encode, decode, new_padding_frame, flag_has_padding, type_padding,
}
use ligend.Protocol.Frame.RoundTrip.{IsFrame, decode-encode}

pub record PaddingGenerator : Type 0 where
  pub conn : Option ℕ
  pub min_delay : ℕ
  pub max_delay : ℕ
  pub running : Bool
  pub stopped : Bool
  pub loops : ℕ

unfoldable pub new_padding_generator : Option ℕ → ℕ → ℕ → PaddingGenerator
new_padding_generator conn min_delay max_delay = record {
  conn = conn;
  min_delay = min_delay;
  max_delay = max_delay;
  running = false;
  stopped = false;
  loops = 0;
}

-- A loop that starts on a closed channel ends by itself.
unfoldable pub start : PaddingGenerator → PaddingGenerator
start pg =
    if pg.running
    then pg
    else if pg.stopped
    then record pg { running = true }
    else record pg { running = true; loops = suc pg.loops }

-- The channel is closed, and the loops have ended when the call returns.
unfoldable pub stop : PaddingGenerator → Outcome ⊥ PaddingGenerator
stop pg =
    if not pg.running
    then ok pg
    else if pg.stopped
    then panic
    else ok (record pg { running = false; stopped = true; loops = 0 })

unfoldable pub update_conn : PaddingGenerator → Option ℕ → PaddingGenerator
update_conn pg conn = record pg { conn = conn }

-- The frame of one round: `size` and `coin` are what the random source holds for the two draws.
unfoldable pub padding_frame : Rng → ℕ → ℕ → Frame
padding_frame rng size coin =
    let frame = new_padding_frame rng (32 + size % 481) in
    if coin % 2 == 0 then record frame { flags = bit_or frame.flags flag_has_padding } else frame

-- What one round of the loop writes once its timer fires, and to which connection.
unfoldable pub padding_round : Rng → PaddingGenerator → ℕ → ℕ → Option (ℕ × Bytes)
padding_round rng pg size coin = elim pg.conn [
  | none ↦ none
  | some conn ↦ some (conn, encode rng (padding_frame rng size coin))
]

pub data GeneratorCall : Type 0 where
  calls_start calls_stop : GeneratorCall
  calls_update_conn : Option ℕ → GeneratorCall

abbrev pub generator_step : PaddingGenerator → GeneratorCall → Outcome ⊥ PaddingGenerator
generator_step pg calls_start = ok (start pg)
generator_step pg calls_stop = stop pg
generator_step pg (calls_update_conn conn) = ok (update_conn pg conn)

abbrev pub generator_run : PaddingGenerator → List GeneratorCall → Outcome ⊥ PaddingGenerator
generator_run pg [] = ok pg
generator_run pg (c ∷ cs) = do next ← generator_step pg c; generator_run next cs

start-open : (pg : PaddingGenerator) → pg.stopped ≡ false → (start pg).stopped ≡ false
unfolding start
start-open pg h = ground arith

start-running : (pg : PaddingGenerator) → (start pg).running ≡ true
unfolding start
start-running pg = ground arith

-- One loop runs exactly if the generator was started and its channel is open.
abbrev pub IsGenerator : PaddingGenerator → Type 0
IsGenerator pg = pg.loops ≡ (if pg.stopped then 0 else if pg.running then 1 else 0)

start-IsGenerator : (pg : PaddingGenerator) → IsGenerator pg → IsGenerator (start pg)
unfolding start
start-IsGenerator pg h = ground arith

-- The call is no stop.
abbrev pub IsOther : GeneratorCall → Type 0
IsOther calls_start = Unit
IsOther calls_stop = ⊥
IsOther (calls_update_conn conn) = Unit

-- Without a stop the channel stays open, and a generator that was started stays started.
before_stop :
    (pg : PaddingGenerator) (cs : List GeneratorCall)
    → IsGenerator pg
    → pg.stopped ≡ false
    → All IsOther cs
    → (last : PaddingGenerator) × (generator_run pg cs ≡ ok last)
      × IsGenerator last
      × (last.stopped ≡ false)
      × (pg.running ≡ true → last.running ≡ true)
unfolding update_conn
before_stop pg [] v is_open h = (pg, refl, v, is_open, λ r. r)
before_stop pg (calls_start ∷ cs) v is_open h =
    let (last, e, w, still, keeps) =
      before_stop (start pg) cs (start-IsGenerator pg v) (start-open pg is_open) h.1 in
    (last, e, w, still, λ r. keeps (start-running pg))
before_stop pg (calls_stop ∷ cs) v is_open h = absurd h.0
before_stop pg (calls_update_conn conn ∷ cs) v is_open h =
    before_stop (update_conn pg conn) cs v is_open h.1

-- A generator that is started, however often, and given connections runs one loop. `stop` ends the
-- loop; but if the generator is started and stopped once more, it closes its channel a second time,
-- which panics.
pub generator_run-once :
    (conn : Option ℕ) (lo hi : ℕ) (cs : List GeneratorCall)
    → All IsOther cs
    → (last : PaddingGenerator) × (halted : PaddingGenerator) × (generator_run
          (start (new_padding_generator conn lo hi))
          cs
        ≡ ok last)
      × (last.loops ≡ 1)
      × (stop last ≡ ok halted)
      × (halted.loops ≡ 0)
      × (stop (start halted) ≡ panic)
unfolding start stop new_padding_generator
generator_run-once conn lo hi cs h =
    let (last, e, v, is_open, keeps) =
      before_stop (start (new_padding_generator conn lo hi)) cs refl refl h in
    let on : last.running ≡ true = keeps refl in
    (
      last,
      record last { running = false; stopped = true; loops = 0 },
      e,
      ground arith,
      simp (on, is_open) refl,
      refl,
      refl,
    )

padding_frame-IsFrame : (rng : Rng) (size coin : ℕ) → IsFrame (padding_frame rng size coin)
unfolding padding_frame new_padding_frame
padding_frame-IsFrame rng size coin = elim (Bool-cases (coin % 2 == 0)) [
  | inl e ↦
      rw e
        (record { is_version = refl; nibble = omega arith; byte = omega arith; word = omega arith })
  | inr e ↦
      rw e
        (record { is_version = refl; nibble = omega arith; byte = omega arith; word = omega arith })
]

length-padding_frame :
    (rng : Rng) (size coin : ℕ)
    → ((padding_frame rng size coin).type ≡ type_padding)
      × (length (padding_frame rng size coin).payload ≡ 32 + size % 481)
unfolding padding_frame new_padding_frame
length-padding_frame rng size coin = elim (Bool-cases (coin % 2 == 0)) [
  | inl e ↦ rw e (refl, length-random_bytes rng.noise (32 + size % 481))
  | inr e ↦ rw e (refl, length-random_bytes rng.noise (32 + size % 481))
]

-- With a connection, each round writes to it one frame, which decodes to a PADDING frame of 32 to 512
-- bytes, whatever the draws are, that of `rand.Intn(128)` among them; without a connection nothing is
-- written.
pub padding_round-decodes :
    (rng : Rng) (pg : PaddingGenerator) (size coin : ℕ)
    → rng.roll < 128
    → (pg.conn ≡ none → padding_round rng pg size coin ≡ none)
      × ((conn : ℕ)
          → pg.conn ≡ some conn
          → (wire : Bytes) × (frame : Frame) × (padding_round rng pg size coin ≡ some (conn, wire))
            × (decode wire ≡ ok frame)
            × (frame.type ≡ type_padding)
            × (32 ≤ length frame.payload)
            × (length frame.payload ≤ 512))
unfolding padding_round
padding_round-decodes rng pg size coin rolled = (
  λ e. rw (padding_round, e) refl,
  λ conn e.
      let frame = padding_frame rng size coin in
      let (is_padding, sized) = length-padding_frame rng size coin in
      (
        encode rng frame,
        frame,
        rw (padding_round, e) refl,
        (decode-encode rng frame (padding_frame-IsFrame rng size coin) rolled).1
            (omega (arith, sized)),
        is_padding,
        omega (arith, sized),
        omega (arith, sized),
      ),
)
