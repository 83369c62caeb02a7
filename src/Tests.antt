-- ===== src/Tests.antt =====
-- Runs of the model on concrete pages, and the theorems at inputs that meet their hypotheses.
mod DataPages
mod RootPages
mod ColumnStores
mod Layers
mod Operations
mod Natives
mod Texts
