-- ===== src/Log/Wrappers.antt =====
-- The functions for one level each, with a format and without.
use ck_agent.Base.{◌≡◌, sym, ◌∙◌, some, Bytes, take, take-take, arith}
use ck_agent.Log.Level.{LogLevel}
use ck_agent.Log.Line.{log_buffer, log_buffer-log_line}
use ck_agent.Log.{
  Logger, equus_log, equus_log_fmtv, log_criticalf, log_errorf, log_warningf, log_infof, log_debugf,
  log_critical, log_error, log_warning, log_info, log_debug,
}
use ck_agent.Log.Write.{equus_log_fmtv_lem}

log_buffer-take :
    (now : Bytes) (v : LogLevel) (b : Bytes) → log_buffer now v (take 3999 b) ≡ log_buffer now v b
log_buffer-take now v b =
    log_buffer-log_line now v (take 3999 b)
    ∙ rw (take-take 3968 3999 b (omega arith)) (sym (log_buffer-log_line now v b))

equus_log-take :
    (now : Bytes) (v : LogLevel) (b : Bytes) (l : Logger)
    → equus_log now v (take 3999 b) l ≡ equus_log now v b l
unfolding equus_log
equus_log-take now v b l = rw (log_buffer-take now v b)

fmtv_log :
    (now : Bytes) (v : LogLevel) (b : Bytes) (l : Logger)
    → equus_log_fmtv now v (some b) l ≡ equus_log now v b l
fmtv_log now v b l = equus_log_fmtv_lem now v (some b) l ∙ equus_log-take now v b l

-- Where formatting does not fail, the function of each level with a format does on any logger what
-- the one without does on the formatted text, however long that is: the buffer that it is formatted into
-- cuts off nothing that the log would show.
pub formatted_plain :
    (now b : Bytes) (l : Logger)
    → (log_criticalf now (some b) l ≡ log_critical now b l)
      × (log_errorf now (some b) l ≡ log_error now b l)
      × (log_warningf now (some b) l ≡ log_warning now b l)
      × (log_infof now (some b) l ≡ log_info now b l)
      × (log_debugf now (some b) l ≡ log_debug now b l)
unfolding log_criticalf log_errorf log_warningf log_infof log_debugf log_critical log_error
    log_warning log_info log_debug
formatted_plain now b l = (
  fmtv_log now _ b l,
  fmtv_log now _ b l,
  fmtv_log now _ b l,
  fmtv_log now _ b l,
  fmtv_log now _ b l,
)
