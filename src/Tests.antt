-- ===== src/Tests.antt =====
-- Runs of the model on concrete inputs, and the theorems applied there.
mod Platform
mod BioRuns
mod FrameRuns
mod StreamRuns
mod SessionRuns
mod SendRuns
mod LifeRuns
mod MiscRuns
mod IoRuns
mod EventRuns
mod LinkRuns
mod ChannelRuns
