-- ===== src/Http/Steps.antt =====
-- On the steps of a handler: what each does to the graph and the table of commits.
use attow_nexus.Prelude.Exec.{Exec}
use attow_nexus.Prelude.{String, ◌≡◌, refl, Option}
use attow_nexus.Platform.{Platform}
use attow_nexus.Auth
use attow_nexus.Auth.{Access, validate}
use attow_nexus.Service.State.{App}
use attow_nexus.Service.Steady.{
  IsSame, IsQuiet, Step, kept, IsStep, IsQuiet-IsStep, Step-then, Step-healthy, same-Step,
}
use attow_nexus.Http.Reply.{ApiResult, reply, refusal}
use attow_nexus.Http.Handler.{Handler, and_then, answer, call, guard, ◌>>=◌}

module _ (p : Platform) {Chan : Type 0} where
  pub Step-and_then :
      {A B : Type 0} (r : ApiResult A) (f : A → Handler (App Chan) B) (s t : App Chan)
      → IsSame s t
      → ((a : A) → IsStep p (f a))
      → Step p s (and_then r f t).1
  Step-and_then (reply a) f s t first second = same-Step p s t (f a t).1 first (second a t first.0)
  Step-and_then (refusal code message) f s t first second = kept first

  Step-and_then_quiet :
      {A B : Type 0} (r : ApiResult A) (f : A → Handler (App Chan) B) (s t : App Chan)
      → Step p s t
      → ((a : A) → IsQuiet (f a))
      → Step p s (and_then r f t).1
  Step-and_then_quiet (reply a) f s t first second =
      Step-then p s t (f a t).1 first (second a t (Step-healthy p s t first))
  Step-and_then_quiet (refusal code message) f s t first second = first

  -- a handler that calls the state and renders what it answers
  pub call-IsStep :
      {A B : Type 0} (m : Exec (App Chan) A) (render : A → B)
      → IsStep p m
      → IsStep p (call m >>= λ a. answer (render a))
  unfolding call
  call-IsStep m render step s h =
      Step-and_then_quiet (call m s).0 (λ a. answer (render a)) s (m s).1 (step s h)
        (λ a t g. (g, refl, refl))

  call-IsQuiet : {A : Type 0} (m : Exec (App Chan) A) → IsQuiet m → IsQuiet (call m)
  unfolding call
  call-IsQuiet m quiet s h = quiet s h

  pub after_call :
      {A B : Type 0} (m : Exec (App Chan) A) (f : A → Handler (App Chan) B)
      → IsQuiet m
      → ((a : A) → IsStep p (f a))
      → IsStep p (call m >>= f)
  after_call m f quiet rest s h =
      Step-and_then (call m s).0 f s (call m s).1 (call-IsQuiet m quiet s h) rest

  guard-IsQuiet : (header : Option String) → IsQuiet {Chan = Chan} (guard p header)
  unfolding guard
  guard-IsQuiet header s h = by_access (validate p header s.config) refl
    where
      by_access :
          (access : Access) → validate p header s.config ≡ access → IsSame s (guard p header s).1
      by_access Auth.granted e = rw (guard, e) (h, refl, refl)
      by_access Auth.unauthorized e = rw (guard, e) (h, refl, refl)
      by_access Auth.forbidden e = rw (guard, e) (h, refl, refl)

  pub guarded :
      {A : Type 0} (header : Option String) (m : Handler (App Chan) A)
      → IsStep p m
      → IsStep p (guard p header >>= λ _. m)
  guarded header m step s h =
      Step-and_then (guard p header s).0 (λ _. m) s (guard p header s).1 (guard-IsQuiet header s h)
        (λ _. step)

  pub answered :
      {A B : Type 0} (m : Handler (App Chan) A) (f : A → B)
      → IsStep p m
      → IsStep p (m >>= λ a. answer (f a))
  answered m f step s h =
      Step-and_then_quiet (m s).0 (λ a. answer (f a)) s (m s).1 (step s h)
        (λ a t g. (g, refl, refl))

  pub reads :
      {A : Type 0} (header : Option String) (f : App Chan → A)
      → IsStep p (guard p header >>= λ _ s. (reply (f s), s))
  reads header f = guarded header (λ s. (reply (f s), s)) (λ s h. kept (h, refl, refl))

  -- a handler that calls an operation which touches neither the graph nor the table
  pub quietly :
      {A B : Type 0} (header : Option String) (m : Exec (App Chan) A) (render : A → B)
      → IsQuiet m
      → IsStep p (guard p header >>= λ _. call m >>= λ a. answer (render a))
  quietly header m render quiet =
      guarded header (call m >>= λ a. answer (render a))
        (call-IsStep m render (IsQuiet-IsStep p m quiet))
