-- ===== src/Panel/Logs/Stream.antt =====
-- server/internal/panel/api_logs.go: the stream of the log over a WebSocket.
use ligend.Prelude.{
  ℕ, ◌-◌, ◌≤◌, ◌<◌, ◌≡◌, length-drop, refl, sym, ap, ◌∙◌, Bool, true, false, List, [], ◌∷◌, ◌++◌,
  length, arith,
}
use ligend.Prelude.Outcome.{Outcome, ok, ◌>>=◌}
use ligend.Prelude.Texts.{pos}
use ligend.Panel.Logs.{
  LogEntry, LogBuffer, recent, add_all, last_lines, Holds, recent-Holds, add_all-Holds, drop-nil,
  new_log_buffer,
}

-- A tick of the stream: the lines that were written since the one before, and whether a message would
-- be delivered.
abbrev pub Tick : Type 0
Tick = List LogEntry × Bool

-- No message is sent for an empty log; the stream ends with a message that is not delivered.
abbrev pub with_message : List LogEntry → Bool → List (List LogEntry) → List (List LogEntry)
with_message [] delivered later = later
with_message (entry ∷ entries) true later = (entry ∷ entries) ∷ later
with_message (entry ∷ entries) false later = (entry ∷ entries) ∷ []

-- The messages of the stream on a buffer that others write to.
unfoldable pub stream_logs : LogBuffer → List Tick → Outcome ⊥ (List (List LogEntry))
stream_logs lb [] = ok []
stream_logs lb ((lines, delivered) ∷ rest) = do
  now ← add_all lb lines
  later ← stream_logs now rest
  ok (with_message (recent now (pos 5)) delivered later)

-- The stream in terms of the lines that were ever written.
abbrev streamed : List LogEntry → List Tick → List (List LogEntry)
streamed history [] = []
streamed history ((lines, delivered) ∷ rest) =
    with_message (last_lines 5 (history ++ lines)) delivered (streamed (history ++ lines) rest)

stream_logs-Holds :
    (lb : LogBuffer) (history : List LogEntry) (ticks : List Tick)
    → 5 ≤ lb.max
    → Holds lb history
    → stream_logs lb ticks ≡ ok (streamed history ticks)
unfolding stream_logs
stream_logs-Holds lb history [] room h = refl
stream_logs-Holds lb history ((lines, delivered) ∷ rest) room h =
    let (now, e, same, holds) = add_all-Holds lb history lines (omega arith) h in
    let now_room : 5 ≤ now.max = omega (arith, same) in
    rw
      (
        e,
        stream_logs-Holds now (history ++ lines) rest now_room holds,
        recent-Holds now (history ++ lines) 5 holds (omega arith) now_room,
      )
      refl

abbrev pub said : List LogEntry → List (List LogEntry)
said [] = []
said (entry ∷ entries) = (entry ∷ entries) ∷ []

-- The specification: at each tick the last five of the lines written up to it, if there are any.
abbrev pub messages : List LogEntry → List Tick → List (List LogEntry)
messages history [] = []
messages history ((lines, delivered) ∷ rest) =
    said (last_lines 5 (history ++ lines)) ++ messages (history ++ lines) rest

-- The lines written when the ticks are over.
abbrev pub written : List LogEntry → List Tick → List LogEntry
written history [] = history
written history ((lines, delivered) ∷ rest) = written (history ++ lines) rest

abbrev pub AllDelivered : List Tick → Type 0
AllDelivered [] = Unit
AllDelivered ((lines, delivered) ∷ rest) = (delivered ≡ true) × AllDelivered rest

with_message-true :
    (entries : List LogEntry) (later : List (List LogEntry))
    → with_message entries true later ≡ said entries ++ later
with_message-true [] later = refl
with_message-true (entry ∷ entries) later = refl

with_message-false :
    (entries : List LogEntry) (later : List (List LogEntry))
    → 0 < length entries
    → with_message entries false later ≡ said entries ++ []
with_message-false [] later some_lines = absurd (omega arith)
with_message-false (entry ∷ entries) later some_lines = refl

streamed-delivered :
    (history : List LogEntry) (ticks : List Tick)
    → AllDelivered ticks
    → streamed history ticks ≡ messages history ticks
streamed-delivered history [] all = refl
streamed-delivered history ((lines, delivered) ∷ rest) (yes_delivered, all) =
    rw
      (
        yes_delivered,
        with_message-true (last_lines 5 (history ++ lines)) (streamed (history ++ lines) rest),
        streamed-delivered (history ++ lines) rest all,
      )
      refl

streamed-failed :
    (history : List LogEntry) (before rest : List Tick) (lines : List LogEntry)
    → AllDelivered before
    → 0 < length (written history before ++ lines)
    → streamed history (before ++ (lines, false) ∷ rest)
      ≡ messages history (before ++ (lines, false) ∷ [])
streamed-failed history [] rest lines all some_lines =
    with_message-false (last_lines 5 (history ++ lines)) (streamed (history ++ lines) rest)
      (omega (arith, length-drop (length (history ++ lines) - 5) (history ++ lines)))
streamed-failed history ((first, delivered) ∷ before) rest lines (yes_delivered, all) some_lines =
    rw
      (
        yes_delivered,
        with_message-true (last_lines 5 (history ++ first))
            (streamed (history ++ first) (before ++ (lines, false) ∷ rest)),
        streamed-failed (history ++ first) before rest lines all some_lines,
      )
      refl

-- On a buffer with room for five lines, whatever was written to it before, the stream never panics.
-- While all messages are delivered, it sends at each tick the last five of all lines written up to it,
-- if there are any. The first message that is not delivered, of a log that is not empty, is the last:
-- whatever the later ticks are, nothing follows it.
pub stream_logs-messages :
    (max : ℕ) (history : List LogEntry) (before rest : List Tick) (lines : List LogEntry)
    → 5 ≤ max
    → AllDelivered before
    → 0 < length (written history before ++ lines)
    → (lb : LogBuffer) × (add_all (new_log_buffer max) history ≡ ok lb)
      × (stream_logs lb before ≡ ok (messages history before))
      × (stream_logs lb (before ++ (lines, false) ∷ rest)
          ≡ ok (messages history (before ++ (lines, false) ∷ [])))
unfolding new_log_buffer
stream_logs-messages max history before rest lines room all some_lines =
    let (lb, e, same, holds) =
      add_all-Holds (new_log_buffer max) [] history (omega arith) (sym (drop-nil (0 - max))) in
    let still : 5 ≤ lb.max = omega (arith, same) in
    (
      lb,
      e,
      stream_logs-Holds lb history before still holds
          ∙ ap (λ (m : List (List LogEntry)). ok m) (streamed-delivered history before all),
      stream_logs-Holds lb history (before ++ (lines, false) ∷ rest) still holds
          ∙ ap (λ (m : List (List LogEntry)). ok m)
              (streamed-failed history before rest lines all some_lines),
    )
