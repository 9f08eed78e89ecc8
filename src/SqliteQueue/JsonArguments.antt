-- ===== src/SqliteQueue/JsonArguments.antt =====
-- The arguments of a task that has gone through SQLiteQueue with its default serializer, the
-- JSONSerializer of src/miniq/serializers.py.
use miniq.Task.{Task}
