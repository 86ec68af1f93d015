-- ===== src/Configurator/Connections/Cron.antt =====
-- apps/configurator: the cron expression of a new trigger.
