-- ===== src/Examples/Files.antt =====
-- The configuration's file, the key generator and the stream of the log.
use ligend.Prelude.{◌+◌, ◌≡◌, refl, sym, Bool, true, false, List, [], ◌∷◌, none, some, ◌++◌, arith}
use ligend.Prelude.Outcome.{ok}
use ligend.Prelude.Bytes.{Bytes}
use ligend.Prelude.Texts.{codes}
use ligend.Config.{Config, secret_key}
use ligend.Config.File.{Yaml, YamlLaws, load}
use ligend.Panel.Http.{put}
use ligend.Panel.Settings.{handle_and_save}
use ligend.Panel.Settings.Saving.{StartsFrom, load-handle_and_save}
use ligend.Panel.Logs.{LogEntry, LogBuffer, add_all, new_log_buffer}
use ligend.Panel.Logs.Stream.{stream_logs, messages, stream_logs-messages}
use ligend.Keygen.{generate}
use ligend.Keygen.Credentials.{Fits, generate-Fits}
use ligend.Examples.Parameters.{zeros}
use ligend.Examples.Sessions.{network}
use ligend.Examples.Panels.{update}
use ligend.Examples.Runs.{key_of, first}

-- A file that holds a configuration as it is.
abbrev plain_yaml : Yaml Config
plain_yaml = record { unmarshal = λ text old. some text; marshal = λ cfg. some cfg }

plain_yaml-YamlLaws : YamlLaws plain_yaml
plain_yaml-YamlLaws = record { unmarshal-marshal = λ cfg old text e. sym e }

has_key : secret_key key_of first.cfg ≡ ok (zeros 32)
unfolding secret_key
has_key = refl

load-handle_and_save_example :
    let (file', s', reply) =
      handle_and_save plain_yaml
        (λ old text. some text)
        (codes "/etc")
        none
        first
        put
        (some update) in
    (load plain_yaml (some network) file' ≡ ok s'.cfg) × StartsFrom key_of s'.cfg
load-handle_and_save_example =
    load-handle_and_save plain_yaml (λ old text. some text) b'/' (codes "etc") _ none first update
      (some network) key_of (zeros 32) plain_yaml-YamlLaws refl refl has_key

generate-Fits_example :
    (printed : Bytes × Config) × (generate (λ bs. bs) (some network) (some (λ i. i)) (λ i. i + 7)
      ≡ ok printed)
    × Fits (λ bs. bs) (λ bs. some bs) (some network) printed
generate-Fits_example =
    generate-Fits (λ bs. bs) (λ bs. some bs) (some network) (λ i. i) (λ i. i + 7) (λ bs. refl)

abbrev line : Bytes → LogEntry
line message = record {
  timestamp = codes "12:00";
  level = codes "INFO";
  message = message;
  source = codes "system";
}

abbrev ticks : List (List LogEntry × Bool)
ticks = (line (codes "a") ∷ line (codes "b") ∷ [], true) ∷ ([], true) ∷ []

-- A message is lost, and the client would take another.
stream_logs-messages_example :
    (lb : LogBuffer) × (add_all (new_log_buffer 1000) (line (codes "begun") ∷ []) ≡ ok lb)
    × (stream_logs lb ticks ≡ ok (messages (line (codes "begun") ∷ []) ticks))
    × (stream_logs lb (ticks ++ (line (codes "c") ∷ [], false) ∷ ([], true) ∷ [])
        ≡ ok (messages (line (codes "begun") ∷ []) (ticks ++ (line (codes "c") ∷ [], false) ∷ [])))
stream_logs-messages_example =
    stream_logs-messages 1000 (line (codes "begun") ∷ []) ticks (([], true) ∷ [])
      (line (codes "c") ∷ []) (omega arith) (refl, (refl, tt)) (omega arith)
