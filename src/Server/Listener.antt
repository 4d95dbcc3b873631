-- ===== src/Server/Listener.antt =====
-- server/mod.rs, `SmppServerListener`: the callbacks of a server, with their defaults, and what the task does
-- that server/state.rs spawns for a request.
use smpp.Base.{Option, none, some, Bytes}
use smpp.Common.Error.{
  esme_rbindfail, esme_rsyserr, esme_rcancelfail, esme_rqueryfail, esme_rreplacefail,
}
use smpp.Commands.HeaderOnly.{HeaderOnly}
use smpp.Commands.HeaderOnly
use smpp.Commands.Bind.{BindKind, BindRequest, BindResponse, reject}
use smpp.Commands.SubmitSm.{SubmitSm}
use smpp.Commands.SubmitSm.Response as SubmitResp
use smpp.Commands.SubmitSmMulti.{SubmitSmMulti}
use smpp.Commands.SubmitSmMulti.Response as MultiResp
use smpp.Commands.DataSm.{DataSm}
use smpp.Commands.DataSm.Response as DataResp
use smpp.Commands.CancelSm.{CancelSm}
use smpp.Commands.QuerySm.{QuerySm}
use smpp.Commands.QuerySm.Response as QueryResp
use smpp.Commands.ReplaceSm.{ReplaceSm}
use smpp.Server.State.{
  Task, on_deliver_sm, on_submit_sm, on_submit_sm_multi, on_data_sm, on_cancel_sm, on_query_sm,
  on_replace_sm, on_alert_notification,
}

-- The three callbacks for a bind are one, with the kind as an argument.
pub record SmppServerListener : Type 0 where
  pub bind : BindKind → BindRequest → BindResponse
  pub unbind : HeaderOnly → HeaderOnly
  pub submit_sm : SubmitSm → SubmitResp.SubmitSmResp
  pub submit_sm_multi : SubmitSmMulti → MultiResp.SubmitSmMultiResp
  pub cancel_sm : CancelSm → HeaderOnly
  pub query_sm : QuerySm → QueryResp.QuerySmResp
  pub replace_sm : ReplaceSm → HeaderOnly
  pub data_sm : DataSm → DataResp.DataSmResp

-- The defaults of the trait.
abbrev pub minimal_server : SmppServerListener
minimal_server = record {
  bind = λ kind p. reject kind p esme_rbindfail;
  unbind = λ p. HeaderOnly.unbind_accept p;
  submit_sm = λ p. SubmitResp.reject p esme_rsyserr;
  submit_sm_multi = λ p. MultiResp.reject p esme_rsyserr;
  cancel_sm = λ p. HeaderOnly.cancel_sm_reject p.header esme_rcancelfail;
  query_sm = λ p. QueryResp.reject p esme_rqueryfail;
  replace_sm = λ p. HeaderOnly.replace_sm_reject p.header esme_rreplacefail;
  data_sm = λ p. DataResp.reject p esme_rsyserr;
}

-- What the task of a request sends; a server spawns none of the other two.
abbrev pub response_of : SmppServerListener → Task → Option Bytes
response_of l (on_submit_sm p) = some (SubmitResp.encode (l.submit_sm p))
response_of l (on_submit_sm_multi p) = some (MultiResp.encode (l.submit_sm_multi p))
response_of l (on_data_sm p) = some (DataResp.encode (l.data_sm p))
response_of l (on_cancel_sm p) = some (HeaderOnly.encode (l.cancel_sm p))
response_of l (on_query_sm p) = some (QueryResp.encode (l.query_sm p))
response_of l (on_replace_sm p) = some (HeaderOnly.encode (l.replace_sm p))
response_of l (on_deliver_sm p) = none
response_of l (on_alert_notification p) = none
