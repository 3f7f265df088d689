-- ===== src/Service/Control.antt =====
-- `win32_service_install`, `win32_service_delete` and `win32_service_status`.
use ck_agent.Base.{ℕ, ◌≡◌, ◌↔◌, Bool, true, false, Option, none, some, arith, if◌then◌else◌}
use ck_agent.Service.{
  Query, Message, deleted, delete_failed, module_name_failed, create_failed, description_failed,
  description_set, open_manager_failed, actions_failed, actions_set, installed, state_is, report,
  Step, fresh, done, waiting, misuse, Action, Void, ◌>>◌, pure, say, close_manager, close_both,
  with_manager, with_service, with_status, attempt,
}
use ck_agent.Service.Wait.{EndsClosed}

-- `INSTALL_PREVIOUSLY`, `INSTALL_INSTALLED` and `INSTALL_FAILURE`
pub data Installation : Type 0 where
  previously newly failure : Installation

-- The answers to `win32_service_install`; `existing` is whether `OpenService` finds the service.
pub record InstallAnswers : Type 0 where
  pub module_name : Option ℕ
  pub manager : Option ℕ
  pub existing : Bool
  pub creation : Option ℕ
  pub description : Option ℕ
  pub actions : Option ℕ

-- `ChangeServiceConfig2` and its two messages.
configure : Option ℕ → (ℕ → Message) → Message → Action Void
configure (some e) bad good = say (bad e)
configure none bad good = say good

create : InstallAnswers → Option ℕ → Action Installation
unfolding configure
create a (some e) = close_manager >> (say (create_failed e) >> pure failure)
create a none = λ s.
    (say installed
        >> (configure a.description description_failed description_set
            >> (configure a.actions actions_failed actions_set >> (close_both >> pure newly))))
      (record s { service = true })

after_manager : InstallAnswers → Action Installation
unfolding create
after_manager a s =
    let previous = (close_both >> pure previously) (record s { service = true }) in
    if a.existing then previous else create a a.creation s

pub win32_service_install : InstallAnswers → Action Installation
unfolding after_manager
win32_service_install a = elim a.module_name [
  | some e ↦ say (module_name_failed e) >> pure failure
  | none ↦ elim a.manager [
    | some e ↦ say (open_manager_failed e) >> pure failure
    | none ↦ λ s. after_manager a (record s { manager = true })
  ]
]

pub win32_service_delete : (manager service deletion : Option ℕ) → Action Void
win32_service_delete manager service deletion = with_manager manager (
    with_service service
      (attempt deletion (λ e. say (delete_failed e)) (say deleted) >> close_both))

pub win32_service_status : (manager service : Option ℕ) → Query → Action Void
win32_service_status manager service query = with_manager manager (
    with_service service (
      with_status query (λ st. say (state_is st.current_state) >> (say (report st) >> close_both))))

-- The result `newly` stands for exactly the calls in which the service was created.
abbrev pub ReportsCreation : InstallAnswers → Step Installation → Type 0
ReportsCreation a (done i s) =
    (i ≡ newly)
    ↔ ((a.module_name ≡ none) × (a.manager ≡ none) × (a.existing ≡ false) × (a.creation ≡ none))
ReportsCreation a (waiting s) = ⊥
ReportsCreation a misuse = ⊥

-- Whatever the service control manager answers, `win32_service_install` closes every handle that it
-- opens, each once, and it reports a new installation exactly where the service was created.
pub install-EndsClosed :
    (a : InstallAnswers)
    → EndsClosed (win32_service_install a fresh) × ReportsCreation a (win32_service_install a fresh)
unfolding win32_service_install
install-EndsClosed a = ground arith

-- Whatever the service control manager answers, `win32_service_delete` and `win32_service_status`
-- close every handle that they open, each once.
pub delete_status-EndsClosed :
    (manager service deletion : Option ℕ) (query : Query)
    → EndsClosed (win32_service_delete manager service deletion fresh)
      × EndsClosed (win32_service_status manager service query fresh)
unfolding win32_service_delete win32_service_status
delete_status-EndsClosed manager service deletion query = (ground arith, ground arith)
