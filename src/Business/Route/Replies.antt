-- ===== src/Business/Route/Replies.antt =====
-- How often `onMessage` of server/business/BusinessServer.cpp answers a stream of packets.
use qinyunserver.Base.{
  ℕ, ◌+◌, ◌≤◌, ◌≡◌, refl, sym, subst, ap, ◌∙◌, inl, inr, ◌⊎◌, ◌&&◌, Bool, true, false, Option, none,
  some, List, [], ◌∷◌, ◌++◌, arith, All, length, Bool-cases, Option-cases, if◌then◌else◌,
}
use Prim.Native.String.{String}
use text.Mathlib.Text.{◌==◌ as str_eq}
use qinyunserver.Business.Monad.{Step, done, returned, thrown, aborted}
use qinyunserver.Business.Interface.{JsonLib, Mysql, Calendar}
use qinyunserver.Business.Server.{Server, Reply, has_string}
use qinyunserver.Business.Owed.{One, Ends, Answering}
use qinyunserver.Business.Answers.{
  Answering->>=, Answering-call, Answering-send_error, Owing-or_throw,
}
use qinyunserver.Net.Buffer.{Buffer, ◌>>=◌, max_size, peek}
use qinyunserver.Net.Buffer.Valid.{IsValid}
use qinyunserver.Business.Packet.Frames.{Fits, IsPartial}
use qinyunserver.Business.Packet.Cuts.{frames}
use qinyunserver.Business.Packet.Stream.{join, serve_all, deliver_all, deliver_all-frames}
use qinyunserver.Business.Handlers.Member.{handle_unknown_action}
use qinyunserver.Business.Handlers.Once.{
  handle_settle_activity-Answering, handle_apply_activity-Answering,
  handle_approve_application-Answering, handle_delete_activity-Answering,
  handle_leave_activity-Answering, handle_batch_assign_members-Answering,
  handle_confirm_assign-Answering, handle_login-Answering, handle_delete_member-Answering,
  handle_batch_delete_members-Answering, handle_unknown_action-Answering,
  handle_get_registered_classes-Answering, handle_get_departments-Answering,
  handle_get_activities-Answering, handle_get_management_activities-Answering,
  handle_get_members-Answering, handle_get_assigned_members-Answering,
  handle_get_time_slot_analytics-Answering, handle_filter_members-Answering,
  handle_set_term_start-Answering, handle_get_term_start-Answering, handle_bulk_register-Answering,
  handle_update_activity-Answering, handle_add_activity-Answering,
  handle_get_class_template-Answering, handle_upload_schedule-Answering,
  handle_batch_apply_class_template-Answering,
}
use qinyunserver.Business.Route.{
  find_route, Handler, router, handler_of, dispatch_action, handle_packet, left, serve,
}

some-inj : {A : Type 0} {a b : A} → some a ≡ some b → a ≡ b
some-inj h = cc

none≢some : {A : Type 0} {a : A} → none ≡ some a → ⊥
none≢some h = cc

One-length : {before later : List Reply} → One before later → length later ≡ length before + 1
One-length (reply, e) = ap length e ∙ omega arith

module _ (J : JsonLib) (D : Mysql) (T : Calendar) where
  abbrev AnsweringRoute : String × Handler J D T → Type 0
  AnsweringRoute (name, handler) = (json : J.Value) → Answering (handler json)

  router-Answering : All AnsweringRoute (router J D T)
  router-Answering =
      search
        (
          handle_login-Answering, handle_upload_schedule-Answering, handle_filter_members-Answering,
          handle_confirm_assign-Answering, handle_get_members-Answering,
          handle_get_activities-Answering, handle_add_activity-Answering,
          handle_get_departments-Answering, handle_bulk_register-Answering,
          handle_get_management_activities-Answering, handle_delete_activity-Answering,
          handle_update_activity-Answering, handle_get_assigned_members-Answering,
          handle_batch_apply_class_template-Answering, handle_get_time_slot_analytics-Answering,
          handle_get_class_template-Answering, handle_delete_member-Answering,
          handle_apply_activity-Answering, handle_leave_activity-Answering,
          handle_batch_delete_members-Answering, handle_batch_assign_members-Answering,
          handle_set_term_start-Answering, handle_get_term_start-Answering,
          handle_get_registered_classes-Answering, handle_approve_application-Answering,
          handle_settle_activity-Answering,
        )
        depth 60

  abbrev or_unknown : Option (Handler J D T) → Handler J D T
  or_unknown found = elim found [ none ↦ handle_unknown_action J D | some handler ↦ handler ]

  find_route-Answering :
      (action : String) (routes : List (String × Handler J D T)) (json : J.Value)
      → All AnsweringRoute routes
      → Answering (or_unknown (find_route action routes) json)
  find_route-Answering action [] json all = handle_unknown_action-Answering J D json
  find_route-Answering action ((name, handler) ∷ routes) json all =
      elim (Bool-cases (str_eq name action)) [
        | inl same ↦ rw same (all.0 json)
        | inr other ↦ rw other (find_route-Answering action routes json all.1)
      ]

  -- Whatever the action is, the handler that is found, or the one for unknown actions, answers once, or an
  -- exception leaves it before it has answered.
  pub dispatch_action-Answering : (json : J.Value) → Answering (dispatch_action J D T json)
  unfolding dispatch_action handler_of
  dispatch_action-Answering json =
      Answering->>= _ _ (Owing-or_throw _)
        (λ action. find_route-Answering action (router J D T) json router-Answering)

  abbrev has_action : Option J.Value → Bool
  has_action none = true
  has_action (some json) = J.contains json "action" && has_string J json "action"

  -- A packet that wants an answer: its text is no JSON, or it names an action.
  abbrev pub is_request : List ℕ → Bool
  is_request body = has_action (J.parse body)

  abbrev pub requests : List (List ℕ) → ℕ
  requests [] = 0
  requests (body ∷ bodies) = (if is_request body then 1 else 0) + requests bodies

  handle_packet-Ends :
      (body : List ℕ) (s : Server D.Conn)
      → ((is_request body ≡ true)
          × Ends (handle_packet J D T body s).0 s.sent (handle_packet J D T body s).1.sent)
        ⊎ ((is_request body ≡ false) × (handle_packet J D T body s ≡ (done tt, s)))
  unfolding handle_packet
  handle_packet-Ends body s = elim (Option-cases (J.parse body)) [
    | inl e ↦ rw (e, handle_packet) (inl (refl, (Answering-call _ (Answering-send_error _ _)).at s))
    | inr (json, e) ↦ elim (Bool-cases (J.contains json "action" && has_string J json "action")) [
      | inl named ↦
          rw (e, named, handle_packet)
            (inl (refl, (Answering-call _ (dispatch_action-Answering json)).at s))
      | inr silent ↦ rw (e, silent, handle_packet) (inr (refl, refl))
    ]
  ]

  left-Ends :
      (x : Step (Unit {0})) (s s₁ s' : Server D.Conn)
      → Ends x s.sent s₁.sent
      → left J D T (x, s₁) ≡ some s'
      → length s'.sent ≡ length s.sent + 1
  left-Ends (done a) s s₁ s' h e =
      subst (λ (t : Server D.Conn). length t.sent ≡ length s.sent + 1) (some-inj e) (One-length h)
  left-Ends returned s s₁ s' h e =
      subst (λ (t : Server D.Conn). length t.sent ≡ length s.sent + 1) (some-inj e) (One-length h)
  left-Ends thrown s s₁ s' h e = absurd (cc)
  left-Ends aborted s s₁ s' h e = absurd (cc)

  -- One packet is answered once where it wants an answer, and not at all where it does not.
  serve_lem :
      (body : List ℕ) (s s' : Server D.Conn)
      → serve J D T body s ≡ some s'
      → length s'.sent ≡ (if is_request body then 1 else 0) + length s.sent
  unfolding serve
  serve_lem body s s' e = elim (handle_packet-Ends body s) [
    | inl (wanted, ends) ↦
        rw wanted (left-Ends _ s (handle_packet J D T body s).1 s' ends e ∙ omega arith)
    | inr (silent, same) ↦ rw silent (
        omega (
          arith,
          ap (λ (t : Server D.Conn). length t.sent) (some-inj (sym (ap (left J D T) same) ∙ e)),
        ))
  ]

  serve_all_lem :
      (bodies : List (List ℕ)) (s s' : Server D.Conn)
      → serve_all (serve J D T) bodies s ≡ some s'
      → length s'.sent ≡ requests bodies + length s.sent
  serve_all_lem [] s s' e = omega (arith, ap (λ (t : Server D.Conn). length t.sent) (some-inj e))
  serve_all_lem (body ∷ bodies) s s' e = elim (Option-cases (serve J D T body s)) [
    | inl lost ↦
        absurd (none≢some (sym (ap (λ m. m >>= λ t. serve_all (serve J D T) bodies t) lost) ∙ e))
    | inr (t, kept) ↦ omega (
      arith,
      serve_lem body s t kept,
      serve_all_lem bodies t s'
          (sym (ap (λ m. m >>= λ t. serve_all (serve J D T) bodies t) kept) ∙ e),
    )
  ]

  -- However a stream of packets is cut into chunks, either an exception leaves a handler, or all is
  -- handled and the server has sent exactly one reply for each packet that is no JSON or names an action,
  -- and none for the others. The buffer must be well-formed, hold less than a packet at first, and stay
  -- below the limit of a vector; the bodies must be within the server's limit.
  pub deliver_all-serve :
      (chunks bodies : List (List ℕ)) (rest : List ℕ) (b : Buffer) (s : Server D.Conn)
      → IsValid b
      → b.writer_idx + length (join chunks) ≤ max_size
      → All Fits bodies
      → IsPartial rest
      → IsPartial (peek b)
      → peek b ++ join chunks ≡ frames bodies ++ rest
      → ((serve_all (serve J D T) bodies s ≡ none) × (deliver_all (serve J D T) chunks b s ≡ none))
        ⊎ ((b' : Buffer) × (s' : Server D.Conn) × (deliver_all (serve J D T) chunks b s
              ≡ some (b', s'))
            × (peek b' ≡ rest)
            × (length s'.sent ≡ requests bodies + length s.sent))
  deliver_all-serve chunks bodies rest b s v room fits part held e =
      let (b', ran, v', kept) =
        deliver_all-frames (serve J D T) chunks bodies rest b v room fits part held e in
      elim (Option-cases (serve_all (serve J D T) bodies s)) [
        | inl lost ↦ inl (lost, ran s ∙ ap (λ m. m >>= λ s'. some (b', s')) lost)
        | inr (s', served) ↦ inr (
          b',
          s',
          ran s ∙ ap (λ m. m >>= λ s'. some (b', s')) served,
          kept,
          serve_all_lem bodies s s' served,
        )
      ]
