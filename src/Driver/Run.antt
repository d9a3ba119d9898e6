-- ===== src/Driver/Run.antt =====
-- `Run` of both drivers: the driver serves itself at an endpoint.
pub mod Served
use baiducloud_cce_csi_drive.Base.{String, true, List, Exec, is_some}
use baiducloud_cce_csi_drive.Driver.Cds.{Driver}
use baiducloud_cce_csi_drive.Driver.Bos.{BosDriver}
use baiducloud_cce_csi_drive.Driver.Serve.{Os, Service, ServeError, serve}

-- `Start` of the gRPC server is `serve`. A server that the driver does not have is nil.
unfoldable pub cds_run :
    {F W : Type 0} → Os F → Driver W → (endpoint : String) → Exec F ServeError (List Service)
cds_run os d endpoint = serve os endpoint true (is_some d.controller_server) (is_some d.node_server)

-- The driver of buckets serves a controller that implements nothing.
unfoldable pub bos_run :
    {F : Type 0} → Os F → BosDriver → (endpoint : String) → Exec F ServeError (List Service)
bos_run os d endpoint = serve os endpoint true true (is_some d.node_server)
