-- ===== src/Process/Inherit.antt =====
-- What a child process takes from its parent, kernel/kernel/src/process.rs, `inherit_stdio_into`,
-- `inherit_stdio_silent_into`, `inherit_cwd_into` and `inherit_env_into`.
use lazers.Base.{
  ℕ, Bool, true, false, not, ◌||◌, none, some, [], ◌∷◌, ◌≡◌, refl, sym, ap, ◌∙◌, inl, inr, arith,
}
use lazers.Base.Tests.{ltb, if◌then◌else◌, ◌==◌, Bool-cases}
use mathlib.Core.Path.{subst}
use lazers.Base.Text.{is_nil, starts_with}
use lazers.Base.Lists.{length, set}
use lazers.Base.Words.{Bytes}
use lazers.Base.Results.{ok, Result-cases, and_then-eq-some}
use lazers.Env
use lazers.Process
use lazers.Process.{
  Process, KernelObject, null, AddressSpace, OwnedPages, ProcessExitAction, first_free, HandleId,
  StdioHandles, set_stdio, max_cwd_len, max_process_handles, install_handle, resolve_handle,
  resolve_fd, install_stdio, inherit_stdio_into, inherit_stdio_silent_into, inherit_cwd_into,
  inherit_env_into, set_cwd,
}
use lazers.Thread.{ProcessId}

-- The second process differs from the first at most in its handles and its standard streams.
abbrev pub SameButHandles : Process → Process → Type 0
SameButHandles p q = q ≡ record p { handles = q.handles; stdio = q.stdio }

SameButHandles-trans :
    (p q r : Process) → SameButHandles p q → SameButHandles q r → SameButHandles p r
SameButHandles-trans p q r g h =
    h ∙ ap (λ (x : Process). record x { handles = r.handles; stdio = r.stdio }) g

install_handle-same :
    (object : KernelObject) (p : Process) (r : HandleId × Process)
    → install_handle object p ≡ some r
    → SameButHandles p r.1
unfolding install_handle
install_handle-same object p r h =
    let (j, _, e) = and_then-eq-some (first_free p.handles) _ h in
    let at_r : (j, record p { handles = set p.handles j (some object) }) ≡ r = cc in
    subst (λ x. SameButHandles p x.1) at_r refl

install_stdio-same :
    (a b c : KernelObject) (p q : Process) → install_stdio a b c p ≡ some q → SameButHandles p q
unfolding install_stdio
install_stdio-same a b c p q h =
    let (x, ex, hx) = and_then-eq-some (install_handle a p) _ h in
    let (y, ey, hy) = and_then-eq-some (install_handle b x.1) _ hx in
    let (z, ez, hz) = and_then-eq-some (install_handle c y.1) _ hy in
    let stdio : StdioHandles = record { stdin = x.0; stdout = y.0; stderr = z.0 } in
    let at_q : set_stdio stdio z.1 ≡ q = cc in
    let to_y =
      SameButHandles-trans p x.1 y.1 (install_handle-same a p x ex)
        (install_handle-same b x.1 y ey) in
    let to_z = SameButHandles-trans p y.1 z.1 to_y (install_handle-same c y.1 z ez) in
    subst (SameButHandles p) at_q (SameButHandles-trans p z.1 (set_stdio stdio z.1) to_z refl)

-- The choice of streams that spawning makes.
pub streams-same :
    (silent : Bool) (parent p q : Process)
    → (if silent then inherit_stdio_silent_into parent p else inherit_stdio_into parent p) ≡ some q
    → SameButHandles p q
unfolding inherit_stdio_into inherit_stdio_silent_into
streams-same true parent p q h =
    let (a, _, ha) = and_then-eq-some (resolve_fd 0 parent) _ h in
    install_stdio-same a null null p q ha
streams-same false parent p q h =
    let (a, _, ha) = and_then-eq-some (resolve_fd 0 parent) _ h in
    let (b, _, hb) = and_then-eq-some (resolve_fd 1 parent) _ ha in
    let (c, _, hc) = and_then-eq-some (resolve_fd 2 parent) _ hb in install_stdio-same a b c p q hc

pub inherit_cwd_into-eq :
    (parent p q : Process) → inherit_cwd_into parent p ≡ some q → q ≡ record p { cwd = parent.cwd }
unfolding inherit_cwd_into set_cwd
inherit_cwd_into-eq parent p q h =
    elim (Bool-cases (
      is_nil parent.cwd
      || not (starts_with b'/' parent.cwd)
      || ltb max_cwd_len (length parent.cwd))) [
        | inl bad ↦ absurd (cc (rw bad at h))
        | inr good ↦ let e = rw good at h in cc
      ]

pub inherit_env_into-eq :
    (parent p q : Process) → inherit_env_into parent p ≡ ok q → q ≡ record p { env = q.env }
unfolding inherit_env_into
inherit_env_into-eq parent p q h = elim (Result-cases (Env.inherit_into parent.env p.env)) [
  | inl (env, e) ↦
      let at_q : record p { env = env } ≡ q = cc (rw (e, inherit_env_into) at h) in
      subst (λ (x : Process). x ≡ record p { env = x.env }) at_q refl
  | inr (error, e) ↦ absurd (cc (rw (e, inherit_env_into) at h))
]

resolve_fd-none :
    (p : Process) (fd : ℕ)
    → (fd == 0) ≡ false
    → (fd == 1) ≡ false
    → (fd == 2) ≡ false
    → resolve_fd fd p ≡ none
unfolding resolve_fd
resolve_fd-none p fd a b c = rw (a, b, c) refl

-- Only the three standard descriptors resolve to something.
resolve_fd-same :
    (p q : Process)
    → resolve_fd 0 p ≡ resolve_fd 0 q
    → resolve_fd 1 p ≡ resolve_fd 1 q
    → resolve_fd 2 p ≡ resolve_fd 2 q
    → (fd : ℕ) → resolve_fd fd p ≡ resolve_fd fd q
resolve_fd-same p q zeroth first second fd =
    let at : (k : ℕ)
        → k ≡ fd
        → resolve_fd k p ≡ resolve_fd k q
        → resolve_fd fd p ≡ resolve_fd fd q =
      λ k e. subst (λ j. resolve_fd j p ≡ resolve_fd j q) e in
    elim (Bool-cases (fd == 0)) [
      | inl is_0 ↦ at 0 (ground arith) zeroth
      | inr not_0 ↦ elim (Bool-cases (fd == 1)) [
        | inl is_1 ↦ at 1 (ground arith) first
        | inr not_1 ↦ elim (Bool-cases (fd == 2)) [
          | inl is_2 ↦ at 2 (ground arith) second
          | inr not_2 ↦
              resolve_fd-none p fd not_0 not_1 not_2 ∙ sym (resolve_fd-none q fd not_0 not_1 not_2)
        ]
      ]
    ]

-- A fresh child gets the streams of its parent: each file descriptor resolves to the same object.
pub inherit_stdio_into-resolve :
    (parent : Process) (id : ProcessId) (name : Bytes) (space : AddressSpace) (pages : OwnedPages)
    (action : ProcessExitAction) {a b c : KernelObject}
    → resolve_fd 0 parent ≡ some a
    → resolve_fd 1 parent ≡ some b
    → resolve_fd 2 parent ≡ some c
    → (child : Process) × (inherit_stdio_into parent (Process.new id name space pages action)
        ≡ some child)
      × ((fd : ℕ) → resolve_fd fd child ≡ resolve_fd fd parent)
unfolding inherit_stdio_into install_stdio install_handle first_free resolve_fd
inherit_stdio_into-resolve parent id name space pages action {a} {b} {c} ha hb hc =
    let child : Process = record (Process.new id name space pages action) {
      handles = some a ∷ some b ∷ some c ∷ none ∷ none ∷ none ∷ none ∷ none ∷ [];
      stdio = record { stdin = 0; stdout = 1; stderr = 2 };
    } in
    (child, rw (ha, hb, hc) refl, resolve_fd-same child parent (sym ha) (sym hb) (sym hc))
