-- ===== src/Client/Listener.antt =====
-- client/mod.rs, `SmppClientListener`: the callbacks of a client, with their defaults, and what the task does
-- that the read loop spawns for a request.
use smpp.Base.{Option, none, some, Bytes}
use smpp.Common.Error.{esme_rsyserr}
use smpp.Commands.HeaderOnly.{HeaderOnly}
use smpp.Commands.HeaderOnly
use smpp.Commands.DeliverSm.{DeliverSm}
use smpp.Commands.DeliverSm.Response as DeliverResp
use smpp.Commands.DataSm.{DataSm}
use smpp.Commands.DataSm.Response as DataResp
use smpp.Server.State.{Task, on_deliver_sm, on_data_sm}

-- Less `on_alert_notification`, which gives nothing back.
pub record SmppClientListener : Type 0 where
  pub unbind : HeaderOnly → HeaderOnly
  pub deliver_sm : DeliverSm → DeliverResp.DeliverSmResp
  pub data_sm : DataSm → DataResp.DataSmResp

-- The defaults of the trait.
abbrev pub minimal_client : SmppClientListener
minimal_client = record {
  unbind = λ p. HeaderOnly.unbind_accept p;
  deliver_sm = λ p. DeliverResp.accept p;
  data_sm = λ p. DataResp.reject p esme_rsyserr;
}

-- What the task of a request sends.
abbrev pub response_of : SmppClientListener → Task → Option Bytes
response_of l (on_deliver_sm p) = some (DeliverResp.encode (l.deliver_sm p))
response_of l (on_data_sm p) = some (DataResp.encode (l.data_sm p))
response_of l _ = none
