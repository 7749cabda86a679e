-- ===== src/Transport/Notify.antt =====
-- agent-transport.ts: `handleNotification`, `checkPendingCommands` and the payload that `processCommand`
-- passes on.
use ai_support_agent_cli.Common.{
  Bool, true, false, not, ◌&&◌, ◌||◌, Option, none, some, List, ◌∷◌, String, ◌≡◌, ◌≢◌, ◌↔◌, ◌⊎◌,
  inl, inr, refl, ap, some-inj, sym, ◌∙◌, if◌then◌else◌, Bool-cases, arith, str_eq, eq_iff, lookup,
  insert, lookup-insert, lookup-insert_self, lookup-insert_ne, flat_map,
}
use ai_support_agent_cli.Common.Text.{codes, starts_with}
use ai_support_agent_cli.Transport.{TransportDeps, World, Event, arrives, run}

pub data Action : Type 0 where
  agent_log : Action
  agent_command : Action
  config_update : Action
  alert_created : Action
  unknown_action : Action

-- The fields of the content that are read, `none` when they are missing.
pub record Content : Type 0 where
  pub command_id : Option String
  pub agent_id : Option String
  pub tenant_code : Option String
  pub project_code : Option String
  pub alert_number : Option String

pub data Reaction : Type 0 where
  ignores : Reaction
  processes : String → Reaction
  schedules_sync : Reaction
  processes_alert : String → Reaction

-- `!x` for a text, and `x === s`
abbrev pub is_falsy : Option String → Bool
is_falsy none = true
is_falsy (some s) = str_eq s ""

abbrev pub is_exactly : Option String → String → Bool
is_exactly none s = false
is_exactly (some t) s = str_eq t s

abbrev pub processed : Option String → Reaction
processed none = ignores
processed (some id) = if str_eq id "" then ignores else processes id

abbrev pub alerted : Option String → Reaction
alerted none = ignores
alerted (some n) = if str_eq n "" then ignores else processes_alert n

unfoldable pub handle_notification : TransportDeps → Bool → Action → Content → Reaction
handle_notification deps draining agent_log c = ignores
handle_notification deps draining agent_command c =
    if not (is_falsy c.agent_id) && not (is_exactly c.agent_id deps.agent_id)
    then ignores
    else if is_falsy c.tenant_code || not (is_exactly c.tenant_code deps.tenant_code)
    then ignores
    else if is_falsy c.project_code || not (is_exactly c.project_code deps.project_code)
    then ignores
    else processed c.command_id
handle_notification deps draining config_update c = if draining then ignores else schedules_sync
handle_notification deps draining alert_created c =
    if is_exactly c.project_code deps.project_code then alerted c.alert_number else ignores
handle_notification deps draining unknown_action c = ignores

-- The pending commands, one after the other; `answers` has what each run waits for.
unfoldable pub check_pending_commands :
    TransportDeps → (String → List Event) → List String → World → World
check_pending_commands deps answers pending w =
    if w.draining then w else run deps w (flat_map (λ id. arrives id ∷ answers id) pending)

abbrev pub Payload : Type 0
Payload = List (String × String)

abbrev pub tool_policy : String
tool_policy = "toolPolicy"

abbrev pub interaction_origin : String
interaction_origin = "interactionOrigin"

-- `user_id` is `none` when it is no string.
abbrev pub is_slack_chat : String → Option String → Bool
is_slack_chat type none = false
is_slack_chat type (some u) = str_eq type "chat" && starts_with (codes u) (codes "slack:")

unfoldable pub trusted_payload : String → Option String → Payload → Payload
trusted_payload type user_id payload =
    if is_slack_chat type user_id
    then insert tool_policy "marketplace_read_only" (insert interaction_origin "slack" payload)
    else payload

-- What a notification must say for its command to be taken.
abbrev pub Addressed : TransportDeps → Content → String → Type 0
Addressed deps c id =
    (c.command_id ≡ some id)
    × (id ≢ "")
    × ((c.agent_id ≡ none) ⊎ ((c.agent_id ≡ some "") ⊎ (c.agent_id ≡ some deps.agent_id)))
    × (c.tenant_code ≡ some deps.tenant_code)
    × (deps.tenant_code ≢ "")
    × (c.project_code ≡ some deps.project_code)
    × (deps.project_code ≢ "")

gate_iff :
    (b : Bool) (r : Reaction) (id : String)
    → ((if b then ignores else r) ≡ processes id) ↔ ((b ≡ false) × (r ≡ processes id))
gate_iff true r id = (λ h. cc, λ (e, h). cc)
gate_iff false r id = (λ h. (refl, h), λ (e, h). h)

scope_iff :
    (o : Option String) (s : String)
    → ((is_falsy o || not (is_exactly o s)) ≡ false) ↔ ((o ≡ some s) × (s ≢ ""))
scope_iff none s = (λ h. cc, λ (e, h). cc)
scope_iff (some t) s = (
  λ h. (
    ap (λ (x : String). some x) ((eq_iff t s).0 (ground arith)),
    λ e. ground (arith, h, e, eq_iff t s, eq_iff t ""),
  ),
  λ (e, h). let same = some-inj e in ground (arith, same, h, eq_iff t s, eq_iff t ""),
)

agent_iff :
    (o : Option String) (s : String)
    → ((not (is_falsy o) && not (is_exactly o s)) ≡ false)
      ↔ ((o ≡ none) ⊎ ((o ≡ some "") ⊎ (o ≡ some s)))
agent_iff none s = (λ h. inl refl, λ h. refl)
agent_iff (some t) s = (
  λ h. elim (Bool-cases (str_eq t "")) [
    | inl e ↦ inr (inl (ap (λ (x : String). some x) ((eq_iff t "").0 e)))
    | inr e ↦ inr (inr (ap (λ (x : String). some x) ((eq_iff t s).0 (ground arith))))
  ],
  λ h. elim h [
    | inl e ↦ cc
    | inr (inl e) ↦ rw ((eq_iff t "").1 (some-inj e)) refl
    | inr (inr e) ↦ rw ((eq_iff t s).1 (some-inj e)) (ground arith)
  ],
)

nonempty : (t : String) → str_eq t "" ≡ false → t ≢ ""
nonempty t e h = clash (sym ((eq_iff t "").1 h) ∙ e)
  where
    clash : true ≡ false → ⊥
    clash h = cc

processed_iff :
    (o : Option String) (id : String) → (processed o ≡ processes id) ↔ ((o ≡ some id) × (id ≢ ""))
processed_iff none id = (λ h. cc, λ (e, h). cc)
processed_iff (some t) id = elim (Bool-cases (str_eq t "")) [
  | inl e ↦ rw e (λ h. cc, λ (k, h). absurd (h (sym (some-inj k) ∙ (eq_iff t "").0 e)))
  | inr e ↦ rw e (
    λ h.
        let same : t ≡ id = cc in
        (ap (λ (x : String). some x) same, λ k. absurd (nonempty t e (same ∙ k))),
    λ (k, h). ap processes (some-inj k),
  )
]

alerted_never : (o : Option String) (id : String) → alerted o ≢ processes id
alerted_never none id h = cc
alerted_never (some n) id h = elim (Bool-cases (str_eq n "")) [ inl e ↦ cc | inr e ↦ cc ]

-- A notification makes the agent process a command exactly when it is a command notification with a
-- command's id, for this tenant and this project, neither of them empty, and either for no agent or for
-- this one.
pub handle_notification_iff :
    (deps : TransportDeps) (draining : Bool) (action : Action) (c : Content) (id : String)
    → (handle_notification deps draining action c ≡ processes id)
      ↔ ((action ≡ agent_command) × Addressed deps c id)
unfolding handle_notification
handle_notification_iff deps draining agent_log c id = (λ h. cc, λ h. cc)
handle_notification_iff deps draining agent_command c id =
    let agent = agent_iff c.agent_id deps.agent_id in
    let tenant = scope_iff c.tenant_code deps.tenant_code in
    let project = scope_iff c.project_code deps.project_code in
    let command = processed_iff c.command_id id in
    (
      λ h.
          let (a, h1) = (gate_iff _ _ id).0 h in
          let (t, h2) = (gate_iff _ _ id).0 h1 in
          let (p, h3) = (gate_iff _ _ id).0 h2 in
          let (k, n) = command.0 h3 in
          (
            refl,
            (k, n, agent.0 a, (tenant.0 t).0, (tenant.0 t).1, (project.0 p).0, (project.0 p).1),
          ),
      λ (e, (k, n, a, t, t', p, p')). (gate_iff _ _ id).1 (
        agent.1 a,
        (gate_iff _ _ id).1
            (tenant.1 (t, t'), (gate_iff _ _ id).1 (project.1 (p, p'), command.1 (k, n))),
      ),
    )
handle_notification_iff deps draining config_update c id =
    (λ h. absurd (sync_never draining h), λ (e, a). cc)
  where
    sync_never : (b : Bool) → (if b then ignores else schedules_sync) ≢ processes id
    sync_never true h = cc
    sync_never false h = cc
handle_notification_iff deps draining alert_created c id =
    (λ h. absurd (alert_never (is_exactly c.project_code deps.project_code) h), λ (e, a). cc)
  where
    alert_never : (b : Bool) → (if b then alerted c.alert_number else ignores) ≢ processes id
    alert_never true h = alerted_never c.alert_number id h
    alert_never false h = cc
handle_notification_iff deps draining unknown_action c id = (λ h. cc, λ h. cc)

-- A chat from Slack always runs under the read-only tool policy, whatever its payload says, with the other
-- fields untouched; every other command keeps its payload.
pub trusted_payload_lem :
    (type : String) (user_id : Option String) (payload : Payload) (k : String)
    → (is_slack_chat type user_id ≡ true
        → let trusted = trusted_payload type user_id payload in
          (lookup tool_policy trusted ≡ some "marketplace_read_only")
          × (lookup interaction_origin trusted ≡ some "slack")
          × (tool_policy ≢ k → interaction_origin ≢ k → lookup k trusted ≡ lookup k payload))
      × (is_slack_chat type user_id ≡ false → trusted_payload type user_id payload ≡ payload)
unfolding trusted_payload
trusted_payload_lem type user_id payload k = (
  λ h. rw h (
    lookup-insert_self tool_policy "marketplace_read_only"
        (insert interaction_origin "slack" payload),
    rw
        (lookup-insert tool_policy interaction_origin "marketplace_read_only"
          (insert interaction_origin "slack" payload))
        (lookup-insert_self interaction_origin "slack" payload),
    λ p o.
        lookup-insert_ne tool_policy k "marketplace_read_only"
          (insert interaction_origin "slack" payload) p
        ∙ lookup-insert_ne interaction_origin k "slack" payload o,
  ),
  λ h. rw h refl,
)
