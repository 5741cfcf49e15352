-- ===== src/Samples.antt =====
-- Concrete inputs, and the theorems at these.
mod Numbers
mod PlaylistRuns
mod CloudRuns
mod BridgeRuns
mod ParameterJsonRuns
mod DetectorRuns
mod LoaderRuns
mod HttpRuns
mod JsonRuns
mod SenderRuns
mod DeliveryRuns
mod ReceivedRuns
mod RegionRuns
mod ThreadRuns
mod DirectoryRuns
