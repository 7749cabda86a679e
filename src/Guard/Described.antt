-- ===== src/Guard/Described.antt =====
-- `validateAnsibleTasks` of server-setup/ansible-task-guard.ts accepts exactly the permitted lists of tasks.
use ai_support_agent_cli.Common.{List}
