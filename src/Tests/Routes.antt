-- ===== src/Tests/Routes.antt =====
-- How often a stream of packets is answered, at a small JSON library and a small database.
use qinyunserver.Base.{ℕ, ◌+◌, ◌≡◌, ◌⊎◌, refl, inl, none, some, [], ◌∷◌, length, arith}
use qinyunserver.Business.Interface.{JsonLib}
use qinyunserver.Business.Server.{Server}
use qinyunserver.Business.Packet.Stream.{serve_all, deliver_all}
use qinyunserver.Business.Route.{serve}
use qinyunserver.Business.Route.Replies.{deliver_all-serve}
use qinyunserver.Net.Buffer.{Buffer, peek}
use qinyunserver.Tests.Requests.{field, word, no_fields, small_json, small_db, start}
use qinyunserver.Tests.Calendars.{small_calendar}

-- A text that starts with an A asks for the term; one that starts otherwise is an object without an
-- action; the empty text is no JSON.
abbrev routes_json : JsonLib
routes_json = record small_json {
  parse = λ text. elim text [
    | [] ↦ none
    | c ∷ cs ↦ elim cs [
      | [] ↦ some (field "action" (word "GET_TERM_START") no_fields)
      | d ∷ ds ↦ some no_fields
    ]
  ];
}

abbrev fresh : Buffer
fresh = record { bytes = 0 ∷ 0 ∷ 0 ∷ 0 ∷ 0 ∷ 0 ∷ 0 ∷ 0 ∷ []; reader_idx = 8; writer_idx = 8 }

-- Three packets, of which two are answered.
deliver_all-serve_example :
    ((serve_all
          (serve routes_json small_db small_calendar)
          ((65 ∷ []) ∷ (66 ∷ 67 ∷ []) ∷ [] ∷ [])
          start
        ≡ none)
      × (deliver_all
            (serve routes_json small_db small_calendar)
            ((0 ∷ 0 ∷ [])
              ∷ (0 ∷ 1 ∷ 65 ∷ 0 ∷ 0 ∷ 0 ∷ 2 ∷ 66 ∷ [])
              ∷ (67 ∷ 0 ∷ 0 ∷ 0 ∷ 0 ∷ 9 ∷ [])
              ∷ [])
            fresh
            start
          ≡ none))
    ⊎ ((b' : Buffer) × (s' : Server ℕ) × (deliver_all
            (serve routes_json small_db small_calendar)
            ((0 ∷ 0 ∷ [])
              ∷ (0 ∷ 1 ∷ 65 ∷ 0 ∷ 0 ∷ 0 ∷ 2 ∷ 66 ∷ [])
              ∷ (67 ∷ 0 ∷ 0 ∷ 0 ∷ 0 ∷ 9 ∷ [])
              ∷ [])
            fresh
            start
          ≡ some (b', s'))
        × (peek b' ≡ 9 ∷ [])
        × (length s'.sent ≡ 2 + 0))
deliver_all-serve_example =
    deliver_all-serve routes_json small_db small_calendar
      ((0 ∷ 0 ∷ []) ∷ (0 ∷ 1 ∷ 65 ∷ 0 ∷ 0 ∷ 0 ∷ 2 ∷ 66 ∷ []) ∷ (67 ∷ 0 ∷ 0 ∷ 0 ∷ 0 ∷ 9 ∷ []) ∷ [])
      ((65 ∷ []) ∷ (66 ∷ 67 ∷ []) ∷ [] ∷ []) (9 ∷ []) fresh start (omega arith) (omega arith)
      (omega arith) (inl (omega arith)) (inl (omega arith)) refl
